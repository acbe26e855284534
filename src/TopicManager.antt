-- ===== src/TopicManager.antt =====
-- The topic managers: what they share, and the one that keeps its data in memory.
pub mod Packed
pub mod Slices
pub mod Loop
pub mod Interface
pub mod Default
pub mod Memory
use mofka.Prelude.{
  length, sum, concat, lengths, if◌then◌else◌, Bytes, word, encode_words, ℕ, suc, ◌+◌, ◌*◌, String,
  ◌≡◌, refl, ap, ◌∙◌, List, [], ◌∷◌, ◌++◌, arith, str_eq, str_eq_iff,
}
use mofka.Rdma.{BulkRef, Rdma}

-- The loops that fill in the offsets of new events: each is the end of the one before.
unfoldable pub offsets_from : ℕ → List ℕ → List ℕ
offsets_from offset [] = []
offsets_from offset (s ∷ ss) = offset ∷ offsets_from (offset + s) ss

-- std::vector::back on a vector that is not empty.
unfoldable pub back : List ℕ → ℕ
back [] = 0
back (x ∷ []) = x
back (x ∷ y ∷ xs) = back (y ∷ xs)

-- m_consumer_cursor: an unordered_map whose operator[] gives 0 for a name that is not there.
abbrev pub Cursors : Type 0
Cursors = List (String × ℕ)

unfoldable pub cursor_of : String → Cursors → ℕ
cursor_of name [] = 0
cursor_of name ((n, id) ∷ cs) = if str_eq n name then id else cursor_of name cs

unfoldable pub set_cursor : String → ℕ → Cursors → Cursors
set_cursor name id [] = (name, id) ∷ []
set_cursor name id ((n, i) ∷ cs) =
    if str_eq n name then (name, id) ∷ cs else (n, i) ∷ set_cursor name id cs

-- After a consumer's cursor is set, it is what was set for that consumer, and unchanged for
-- every other.
pub cursor_of-set_cursor :
    (name n : String) (id : ℕ) (cs : Cursors)
    → cursor_of n (set_cursor name id cs) ≡ (if str_eq name n then id else cursor_of n cs)
unfolding cursor_of set_cursor
cursor_of-set_cursor name n id [] = refl
cursor_of-set_cursor name n id ((m, i) ∷ cs) =
    ground (
      arith,
      str_eq_iff name n,
      str_eq_iff m n,
      str_eq_iff m name,
      cursor_of-set_cursor name n id cs,
    )

pub offsets_from-append :
    (offset : ℕ) (xs ys : List ℕ)
    → offsets_from offset (xs ++ ys) ≡ offsets_from offset xs ++ offsets_from (offset + sum xs) ys
unfolding offsets_from
offsets_from-append offset [] ys = let e : offset + 0 ≡ offset = omega arith in rw e
offsets_from-append offset (x ∷ xs) ys =
    let e : offset + (x + sum xs) ≡ offset + x + sum xs = omega arith in
    rw e (ap (λ r. offset ∷ r) (offsets_from-append (offset + x) xs ys))

pub length-offsets_from : (offset : ℕ) (ss : List ℕ) → length (offsets_from offset ss) ≡ length ss
unfolding offsets_from
length-offsets_from offset [] = refl
length-offsets_from offset (s ∷ ss) = ap suc (length-offsets_from (offset + s) ss)

-- The last offset and the last size make up the end.
pub back-offsets_from :
    (offset s : ℕ) (ss : List ℕ)
    → back (offsets_from offset (s ∷ ss)) + back (s ∷ ss) ≡ offset + sum (s ∷ ss)
unfolding offsets_from back
back-offsets_from offset s [] = omega arith
back-offsets_from offset s (t ∷ ss) = omega (arith, back-offsets_from (offset + s) t ss)

-- What feedConsumer passes to ConsumerHandle::feed.
pub record Fed (B : Type 0) : Type 0 where
  pub count : ℕ
  pub first_id : ℕ
  pub metadata_sizes : BulkRef B
  pub metadata : BulkRef B
  pub data_desc_sizes : BulkRef B
  pub data_desc : BulkRef B

-- Where the descriptors of new events start.
unfoldable pub desc_end : List ℕ → List ℕ → ℕ
unfolding back
desc_end [] sizes = 0
desc_end (o ∷ os) sizes = back (o ∷ os) + back sizes

-- References into handles that hold the sizes of the entries and then the entries.
abbrev pub fed_of :
    (R : Rdma) (first_id : ℕ) (metadatas descs : List Bytes) (address : String) → Fed R.Bulk
fed_of R first_id metadatas descs address =
    let m = R.expose (encode_words (lengths metadatas) ∷ concat metadatas ∷ []) in
    let d = R.expose (encode_words (lengths descs) ∷ concat descs ∷ []) in
    let num = length metadatas in
    record {
      count = num;
      first_id = first_id;
      metadata_sizes = record { handle = m; offset = 0; size = num * word; address = address };
      metadata = record {
        handle = m;
        offset = num * word;
        size = sum (lengths metadatas);
        address = address;
      };
      data_desc_sizes = record { handle = d; offset = 0; size = num * word; address = address };
      data_desc = record {
        handle = d;
        offset = num * word;
        size = sum (lengths descs);
        address = address;
      };
    }

pub desc_end_lem : (ss : List ℕ) → desc_end (offsets_from 0 ss) ss ≡ sum ss
unfolding desc_end offsets_from
desc_end_lem [] = refl
desc_end_lem (s ∷ ss) = back-offsets_from 0 s ss ∙ omega arith
