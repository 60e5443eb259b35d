-- ===== src/FreeList/Interface.antt =====
-- Allocators/FreeList.h, `PolicyInterface` and `FreeList`: blocks behind a header that holds their
-- size. The bytes of the headers are a function from addresses; `fresh` is what `operator new`
-- returns. Sizes are words of the width that `FindSizeT` chooses for `bytes`.
use allocators.Common.{
  ℕ, ◌+◌, ◌-◌, ◌*◌, ◌/◌, ◌%◌, ◌^◌, Bool, true, false, [], Option, none, some, ltb, ◌==◌,
  if◌then◌else◌, get_elem?, u64,
}
use allocators.Helpers.Sizes.{find_size_bits}
use allocators.FreeList.Policy
use allocators.FreeList.Policy.{Store, add, erase, free_all}

pub data AlSearch : Type 0 where
  best_fit first_fit : AlSearch

-- What the template parameters fix: the arena, the modulus of `size_type`, and the header.
pub record Params : Type 0 where
  pub bytes : ℕ
  pub modulus : ℕ
  pub header_size : ℕ

unfoldable pub params : (bytes : ℕ) → Params
unfolding find_size_bits
params bytes = record {
  bytes = bytes;
  modulus = 2 ^ find_size_bits bytes 0;
  header_size = find_size_bits bytes 0 / 8;
}

-- The static members of `PolicyInterface` and of its policy, and the headers in the arena.
pub record Storage : Type 0 where
  pub my_begin : ℕ
  pub my_end : ℕ
  pub init : Bool
  pub search : AlSearch
  pub bytes_free : ℕ
  pub availible : Store
  pub headers : ℕ → ℕ

abbrev pub update : (ℕ → ℕ) → ℕ → ℕ → ℕ → ℕ
update f a v x = if a == x then v else f x

module _ (c : Params) where
  open c use {bytes, modulus, header_size}

  -- The values of the static members before the first constructor runs.
  unfoldable pub uninitialised : Storage
  uninitialised = record {
    my_begin = 0;
    my_end = 0;
    init = true;
    search = AlSearch.first_fit;
    bytes_free = bytes;
    availible = [];
    headers = λ _. 0;
  }

  unfoldable pub construct : (fresh : ℕ) → Storage → Storage
  unfolding add
  construct fresh st =
      if st.init
      then record st {
        init = false;
        my_begin = fresh;
        my_end = fresh + bytes;
        availible = add modulus header_size fresh bytes st.availible;
      }
      else st

  -- `bestFit` is a stub.
  unfoldable pub take_best_fit : (byte_count : ℕ) → Storage → Option (ℕ × Storage)
  take_best_fit byte_count st = none

  -- `writeHeader`: the header, and the address behind it.
  unfoldable pub write_header : (start size : ℕ) → Storage → ℕ × Storage
  write_header start size st =
      (start + header_size, record st { headers = update st.headers start size })

  -- `firstFit` once the chunk is found.
  unfoldable pub take_chunk : (req_bytes i mem chunk_bytes : ℕ) → Storage → ℕ × Storage
  unfolding write_header add erase
  take_chunk req_bytes i mem chunk_bytes st =
      let rest = erase i st.availible in
      write_header mem ((req_bytes + modulus - header_size) % modulus) (record st {
        availible =
            if ltb req_bytes chunk_bytes
            then add modulus header_size (mem + req_bytes) (chunk_bytes - req_bytes) rest
            else rest;
      })

  unfoldable pub take_first_fit : (req_bytes : ℕ) → Storage → Option (ℕ × Storage)
  unfolding take_chunk Policy.first_fit
  take_first_fit req_bytes st = elim (Policy.first_fit req_bytes st.availible) [
    | none ↦ none
    | some i ↦ elim (get_elem? st.availible i) [
      | none ↦ none
      | some (mem, chunk_bytes) ↦ some (take_chunk req_bytes i mem chunk_bytes st)
    ]
  ]

  -- `allocate` behind the computation of `reqBytes`; `none` is `std::bad_alloc`.
  unfoldable pub allocate_bytes : (req_bytes : ℕ) → Storage → Option (ℕ × Storage)
  unfolding take_first_fit take_best_fit
  allocate_bytes req_bytes st =
      let found : Option (ℕ × Storage) = elim st.search [
        | AlSearch.first_fit ↦ take_first_fit req_bytes st
        | AlSearch.best_fit ↦ take_best_fit req_bytes st
      ] in
      elim found [
        | none ↦ none
        | some (mem, st') ↦
            some (mem, record st' { bytes_free = (st'.bytes_free + modulus - req_bytes) % modulus })
      ]

  -- `allocate<T>(count)`, where `size` is `sizeof(T)`.
  unfoldable pub allocate : (size count : ℕ) → Storage → Option (ℕ × Storage)
  unfolding allocate_bytes
  allocate size count st = allocate_bytes (u64 (size * count + header_size) % modulus) st

  unfoldable pub deallocate : (ptr : ℕ) → Storage → Storage
  unfolding add
  deallocate ptr st =
      let header = ptr - header_size in
      let size = st.headers header in
      record st {
        bytes_free = (st.bytes_free + (size + header_size)) % modulus;
        availible = add modulus header_size header size st.availible;
      }

  unfoldable pub reset : Storage → Storage
  unfolding free_all
  reset st = record st { bytes_free = bytes; availible = free_all st.my_begin bytes }
