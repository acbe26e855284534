-- ===== src/Lib.antt =====
-- Mofka, an event streaming service: producers push events to topics, and consumers pull them.
-- An event has metadata, a JSON document, and data, bytes in the memory of the producer.
--
-- The way of an event. A client finds the providers of a service (Client), and creates or opens
-- a topic at one of them, by the hash of its name (Service). The handle of the topic makes
-- producers and consumers from options (TopicHandle). Producer::push gives an event an id and
-- submits a ULT that validates it, selects a target and enters it into the queue of that target
-- at its turn (Producer/Push). The queue gathers events in batches (Producer/Batch), and a
-- thread sends a batch when it is full or flushed (Producer/Queue). The provider finds the topic
-- (Provider), whose manager pulls the metadata of the batch, adds it to its log, and keeps the
-- data itself (TopicManager/Memory) or in a data store (TopicManager/Default, DataStore). The
-- provider registers each consumer that requests events (Provider/Consumers), and the manager
-- feeds it the metadata and the descriptors of the data; the consumer pulls these, takes a
-- promise for each event and requests its data (Consumer). ULTs run in a pool with priorities
-- (ThreadPool, PrioPool).
--
-- Which file is about which code:
-- - Prelude: lists measured by native numbers, little-endian words of 8 bytes, calls that return
--   or throw.
-- - Archive: include/mofka/BufferWrapperArchive.hpp.
-- - Descriptor: src/DataDescriptor.cpp and src/DataDescriptorImpl.hpp; makeSubView is
--   make_sub_view, and so on for each method.
-- - Json: ValidateIsJson of src/RapidJsonUtil.hpp.
-- - Metadata: src/MetadataImpl.hpp and src/Metadata.cpp; Metadata/Serializer:
--   src/DefaultSerializer.hpp and src/DefaultValidator.hpp; Metadata/Factory:
--   include/mofka/Factory.hpp, and FromMetadata of src/Serializer.cpp, src/Validator.cpp and
--   src/TargetSelector.cpp.
-- - Selector: src/DefaultTargetSelector.hpp.
-- - PrioPool: src/PrioPool.cpp; ThreadPool: src/ThreadPoolImpl.hpp.
-- - Result: include/mofka/Result.hpp.
-- - Rdma: include/mofka/BulkRef.hpp, and the transfers of Thallium as a parameter.
-- - Producer/Batch and Producer/Queue: the two classes of src/ProducerBatchImpl.hpp
--   (Producer/Batch/Sent puts a batch together with the topic that receives it,
--   Producer/Batch/Delivered also with the consumer, Producer/Batch/Answered with the provider,
--   Producer/Batch/Consumed a sequence of batches with the provider and the consumer);
--   Producer/Push: src/Producer.cpp with src/ProducerImpl.hpp; Producer/Routed puts it together
--   with the queues of its targets.
-- - Consumer: src/Consumer.cpp with src/ConsumerImpl.hpp, and src/ConsumerBatchImpl.hpp
--   (Consumer/Receive/FromTopic puts it together with the topic that feeds it,
--   Consumer/Receive/Rounds with all rounds of feedConsumer and ConsumerHandle::feed of
--   src/ConsumerHandle.cpp and forwardBatchToConsumer of src/Client.cpp,
--   Consumer/Receive/Request/FromTopic with the data that the topic sends); Consumer/Lifetime:
--   start, the requests of its ULTs, and join, over the providers; Consumer/Acknowledge:
--   src/Event.cpp.
-- - TopicManager: what topic managers share; TopicManager/Loop: the loops of feedConsumer, which
--   both managers run; TopicManager/Interface: include/mofka/TopicManager.hpp, with the laws
--   that TopicManager/Memory/Manager and TopicManager/Default/Manager show and
--   Consumer/Receive/FromManager assumes; TopicManager/Memory: src/MemoryTopicManager.cpp;
--   TopicManager/Default: src/DefaultTopicManager.cpp (TopicManager/Default/InMemory compares
--   the two, TopicManager/Default/Stored puts it together with the data store;
--   TopicManager/Default/Creation makes both from a configuration).
-- - DataStore: src/WarabiDataStore.hpp, with Warabi as a parameter.
-- - Provider: the topics of src/ProviderImpl.hpp; Provider/Creation: its constructor;
--   Provider/Consumers: its consumers, with src/ConsumerHandleImpl.hpp; Provider/Handlers:
--   handlers over the interface of topic managers.
-- - TopicHandle: producer and consumer of include/mofka/TopicHandle.hpp with
--   src/TopicHandle.cpp, and the search for their options of include/mofka/ArgsUtil.hpp.
-- - Service: src/ServiceHandle.cpp; Client: the discovery of targets in src/Client.cpp.
-- - Future: src/Promise.hpp and include/mofka/Future.hpp (Future/Laws puts them together with a
--   batch of a producer).
-- - Uuid: include/mofka/UUID.hpp.
--
-- State and operations. The members of a class that its operations use are a record, with their
-- names less `m_`; an operation takes the record and gives the one that it leaves. A call that
-- throws has the type Outcome. What several threads do to a shared object is a step relation:
-- each step is what one thread does while it holds the mutex, and Reach is any sequence of
-- steps. Undefined behaviour, such as a view outside of its buffer, is `none`.
--
-- Numbers. `size_t` has 64 bits; where the code can wrap, as in the views of descriptors and the
-- positions of consumers, the model does. Sizes of what is in memory, and counters of events,
-- are added without wrapping, as memory and runs do not reach 2 ^ 64. A `size_t` in an archive
-- or a bulk handle is 8 bytes, the lowest first. No recursion of the model needs fuel.
--
-- Parameters. RapidJSON, Thallium's transfers, Warabi's regions, libuuid, the hash of strings,
-- what Bedrock and the schema validators report, what a second value does to an eventual, the
-- serializer of a topic, std::ceil of a quotient of doubles, and what a move leaves of an
-- exception are arguments, with what is relied on as a hypothesis of the theorem.
--
-- Not modelled: the accessors of handles, and the classes that only pass calls on to RPCs; what
-- Thallium does with an exception that leaves a handler, or with a reference smaller than what
-- is sent to it; an exception of a serializer while an event is added to a batch; Argobots,
-- which runs the ULTs of a pool; the examples and the Bedrock module.
pub mod Prelude
pub mod Archive
pub mod Descriptor
pub mod Json
pub mod Metadata
pub mod Selector
pub mod PrioPool
pub mod ThreadPool
pub mod TopicHandle
pub mod Result
pub mod Producer
pub mod Consumer
pub mod Rdma
pub mod Uuid
pub mod Future
pub mod TopicManager
pub mod DataStore
pub mod Provider
pub mod Service
pub mod Client
