-- ===== src/TopicManager/Default/Manager.antt =====
-- The default topic keeps to the interface of topic managers, if its data store works.
use mofka.Prelude.{
  Outcome, length, length-append, All, All-append, concat, lengths, lengths-append, Bytes, IsU64,
  returns, ℕ, ◌+◌, ◌%◌, ◌^◌, String, ◌≡◌, refl, sym, ap, ◌∙◌, List, ◌++◌, arith,
}
use mofka.Descriptor.{DataDescriptor}
use mofka.Rdma.{Rdma, IsRdma, BulkRef}
use mofka.TopicManager.{cursor_of-set_cursor, set_cursor, Cursors}
use mofka.TopicManager.Packed.{packed, whole}
use mofka.TopicManager.Interface.{TopicManager, IsTopicManager}
use mofka.TopicManager.Default.{DefaultTopic, receive_batch, feed_once, acknowledge, feed_consumer}
use mofka.TopicManager.Default.Log.{topic_with, images, length-images}
use mofka.TopicManager.Default.Receive.{receive_batch-append_stored}
use mofka.TopicManager.Default.Feed.{
  feed_once-topic_with, feed_once-topic_with_waits, feed_consumer-feed_loop,
}

-- What is expected of a data store: what is exposed as sizes and entries is stored, with a descriptor for
-- each entry that is small when it is saved.
abbrev pub IsStore :
    (R : Rdma) → (ℕ → BulkRef R.Bulk → Outcome (Outcome (List DataDescriptor))) → Type 0
IsStore R store =
    (xs segments : List Bytes) (address : String)
    → concat segments ≡ packed xs
    → IsU64 (length (packed xs))
    → (ds : List DataDescriptor) × (store (length xs) (whole R segments address)
        ≡ returns (returns ds))
      × (length ds ≡ length xs)
      × All IsU64 (lengths (images ds))

abbrev pub DefaultLog : (ms descs : List Bytes) → DefaultTopic → Type 0
DefaultLog ms descs t =
    (cursors : Cursors) × (topic_with ms descs cursors ≡ t)
    × (length ms ≡ length descs)
    × All IsU64 (lengths descs)

module _ (R : Rdma) (store : ℕ → BulkRef R.Bulk → Outcome (Outcome (List DataDescriptor))) where
  abbrev pub default_manager : TopicManager R
  default_manager = record {
    Topic = DefaultTopic;
    receive_batch = receive_batch R store;
    feed_once = feed_once R;
    feed_consumer = feed_consumer R;
    acknowledge = acknowledge;
    consumer_cursor = λ t. t.consumer_cursor;
  }

  small_append :
      (xs ys : List Bytes)
      → All IsU64 (lengths xs)
      → All IsU64 (lengths ys)
      → All IsU64 (lengths (xs ++ ys))
  small_append xs ys hx hy =
      rw (lengths-append xs ys) (All-append IsU64 (lengths xs) (lengths ys) hx hy)

  -- The default topic keeps to the interface, if transfers within what is exposed succeed and its data
  -- store stores what is exposed.
  pub default_manager-IsTopicManager :
      IsRdma R → IsStore R store → IsTopicManager R default_manager DefaultLog
  unfolding acknowledge topic_with
  default_manager-IsTopicManager law stores = record {
    is_paired = λ ms descs t (cursors, st, k, small). k;
    is_small = λ ms descs t (cursors, st, k, small). small;
    receives = λ ms descs ns xs msegs dsegs address t (cursors, st, k, small) em ex e un ux.
        let (ds, stored, count, small') = stores xs dsegs address ex ux in
        let counts = count ∙ sym e in
        (
          images ds,
          topic_with (ms ++ ns) (descs ++ images ds) cursors,
          rw (← st) (
              receive_batch-append_stored R store ms descs ns ds cursors msegs address
                (whole R dsegs address) law em un k counts (rw e stored)),
          length-images ds ∙ counts,
          (
            cursors,
            refl,
            omega (arith, length-append ms ns, length-append descs (images ds), length-images ds),
            small_append descs (images ds) small small',
          ),
        );
    feeds = λ batch_size first_id num address ms descs t (cursors, st, k, small) b f u n.
        rw (← st)
          (feed_once-topic_with R batch_size first_id num address ms descs cursors b f k u n);
    waits = λ batch_size address ms descs t (cursors, st, k, small).
        rw (← st) (feed_once-topic_with_waits R batch_size address ms descs cursors);
    loops = feed_consumer-feed_loop R;
    acknowledges = λ name id ms descs t (cursors, st, k, small).
        (set_cursor name ((id + 1) % 2 ^ 64) cursors, ap (λ u. acknowledge name id u) st, k, small);
    moves = λ name n id t. cursor_of-set_cursor name n ((id + 1) % 2 ^ 64) t.consumer_cursor;
  }
