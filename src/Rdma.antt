-- ===== src/Rdma.antt =====
-- Bulk transfers. Thallium is the parameter `Rdma`: `expose` makes a handle for segments of memory,
-- `transfer` gets the bytes from an offset on out of a handle, or throws, and `overflow` is what a
-- transfer throws that is larger than the local memory it goes to.
use mofka.Prelude.{
  Outcome, length, take, drop, concat, Bytes, returns, ℕ, ◌+◌, ◌≤◌, String, ◌≡◌, refl, List,
}

pub record Rdma : Type 1 where
  pub Bulk : Type 0
  pub expose : List Bytes → Bulk
  pub transfer : Bulk → (offset size : ℕ) → Outcome Bytes
  pub overflow : String

-- What is assumed of it: a range within what was exposed arrives as it was.
abbrev pub IsRdma : Rdma → Type 0
IsRdma R =
    (segments : List Bytes) (offset size : ℕ)
    → offset + size ≤ length (concat segments)
    → R.transfer (R.expose segments) offset size
      ≡ returns (take size (drop offset (concat segments)))

-- include/mofka/BulkRef.hpp.
pub record BulkRef (B : Type 0) : Type 0 where
  pub handle : B
  pub offset : ℕ
  pub size : ℕ
  pub address : String

-- Transfers within one memory.
abbrev pub local_rdma : Rdma
local_rdma = record {
  Bulk = List Bytes;
  expose = λ segments. segments;
  transfer = λ segments offset size. returns (take size (drop offset (concat segments)));
  overflow = "overflow";
}

pub local_rdma-IsRdma : IsRdma local_rdma
local_rdma-IsRdma segments offset size h = refl
