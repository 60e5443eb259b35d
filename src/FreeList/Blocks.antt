-- ===== src/FreeList/Blocks.antt =====
-- What `PolicyInterface::allocate` and `deallocate` do to the free bytes: where they carve out and
-- give back exactly a block, and where the header is counted wrongly.
use native.Mathlib.Nat.{mod-eq_of_lt, add-mod_right}
use allocators.Common.{
  ℕ, ◌+◌, ◌-◌, ◌*◌, ◌%◌, ◌^◌, ◌≤◌, ◌<◌, ◌≡◌, ◌⊎◌, refl, inl, inr, true, false, [], ◌∷◌, some, ltb,
  lt→ltb, ltb→lt, ltb-false, ap, if◌then◌else◌, arith, get_elem?, u64, subst, Bool-cases,
}
use allocators.FreeList.Policy
use allocators.FreeList.Policy.{Chunk, Store, add, erase, in_range, covered}
use allocators.FreeList.Merge.{Separated, Apart, bytes_of, Extends, add-Extends}
use allocators.FreeList.Fit.{Erased, erase-Erased}
use allocators.FreeList.Interface.{AlSearch, Params, Storage, allocate, allocate_bytes, update}

-- `l'` is `l` less the bytes of the block.
pub record Carves (lo hi : ℕ) (c : Chunk) (l l' : Store) : Type 0 where
  pub separated : Separated lo hi l'
  pub covers : (x : ℕ) → covered x l ≡ (if in_range x c then true else covered x l')
  pub taken : (x : ℕ) → in_range x c ≡ true → covered x l' ≡ false
  pub bytes : bytes_of l ≡ c.1 + bytes_of l'

-- A request that finds the chunk `(p, s)` at index `i`.
pub record Finds (c : Params) (lo hi size count i p s : ℕ) (st : Storage) : Type 0 where
  pub word : c.modulus ≤ 2 ^ 64
  pub small : size * count + c.header_size < c.modulus
  pub narrow : hi < c.modulus + lo
  pub first : st.search ≡ AlSearch.first_fit
  pub ordered : Separated lo hi st.availible
  pub found : Policy.first_fit (size * count + c.header_size) st.availible ≡ some i
  pub at : get_elem? st.availible i ≡ some (p, s)
  pub enough : size * count + c.header_size ≤ s

pub Apart-covered :
    (x p n : ℕ) (l : Store) → Apart (p, n) l → p ≤ x → x < p + n → covered x l ≡ false
Apart-covered x p n [] gap ge lt = refl
Apart-covered x p n (c ∷ l) gap ge lt = ground (arith, Apart-covered x p n l gap.1)

Apart-sub : (p n q k : ℕ) (l : Store) → Apart (p, n) l → p ≤ q → q + k ≤ p + n → Apart (q, k) l
Apart-sub p n q k [] gap ge le = tt
Apart-sub p n q k (c ∷ l) gap ge le = (ground arith, Apart-sub p n q k l gap.1 ge le)

pub ltb_self : (n s : ℕ) → s ≡ n → ltb n s ≡ false
ltb_self n s e = ground arith

module _ (c : Params) (lo hi size count i p s : ℕ) (st : Storage)
    (f : Finds c lo hi size count i p s st) where
  open c use {modulus, header_size}

  abbrev pub req : ℕ
  req = size * count + header_size

  -- The free list that `allocate` leaves.
  abbrev pub left : Store
  left =
      if ltb req s
      then add modulus header_size (p + req) (s - req) (erase i st.availible)
      else erase i st.availible

  req-eq : u64 (size * count + header_size) % modulus ≡ req
  req-eq =
      let narrow : u64 (size * count + header_size) ≡ req = omega (arith, f.small, f.word) in
      rw narrow (mod-eq_of_lt f.small)

  size-eq : (req + modulus - header_size) % modulus ≡ size * count
  size-eq =
      let sum : req + modulus - header_size ≡ size * count + modulus = omega arith in
      rw (sum, add-mod_right) (mod-eq_of_lt (omega (arith, f.small)))

  -- The state that `allocate` leaves.
  abbrev pub after : Storage
  after = record st {
    availible = left;
    headers = update st.headers p (size * count);
    bytes_free = (st.bytes_free + modulus - req) % modulus;
  }

  allocate_bytes-eq : allocate_bytes c req st ≡ some (p + header_size, after)
  unfolding allocate_bytes
  allocate_bytes-eq = ground (arith, f.first, f.found, f.at, size-eq)

  pub allocate-eq : allocate c size count st ≡ some (p + header_size, after)
  unfolding allocate
  allocate-eq = rw req-eq allocate_bytes-eq

  gone : Erased lo hi p s st.availible (erase i st.availible)
  gone = erase-Erased lo hi i p s st.availible f.ordered f.at

  exact-Carves : s ≡ req → Carves lo hi (p, req) st.availible (erase i st.availible)
  exact-Carves e = rw (← e) (record {
    separated = gone.separated;
    covers = gone.covers;
    taken = λ x h. ground (arith, gone.clear x);
    bytes = gone.bytes;
  })

  sole-Carves : erase i st.availible ≡ [] → req < s → Carves lo hi (p, req) st.availible left
  unfolding add
  sole-Carves e lt =
      rw (lt→ltb req s lt, e, add)
        (record {
          separated = (omega (arith, gone.above), omega arith, omega (arith, gone.below), tt);
          covers = λ x. ground (arith, gone.covers x, ap (covered x) e);
          taken = λ x h. ground arith;
          bytes = omega (arith, gone.bytes, ap bytes_of e);
        })

  carved : (s ≡ req) ⊎ (erase i st.availible ≡ []) → Carves lo hi (p, req) st.availible left
  carved (inl e) = rw (ltb_self (size * count + header_size) s e) (exact-Carves e)
  carved (inr e) = elim (Bool-cases (ltb req s)) [
    | inl lt ↦ sole-Carves e (ltb→lt req s lt)
    | inr ge ↦ rw ge (exact-Carves (omega (arith, f.enough, ltb-false req s ge)))
  ]

  -- A request that takes a whole chunk, or part of the only chunk, gets a block that was free; the
  -- free bytes are exactly those that were free less the block, header included, and the header
  -- holds the size asked for. The request with its header does not wrap at the width of `size_type`,
  -- the chunk found is large enough and lies in the ordered list of free chunks.
  pub allocate-Carves :
      (s ≡ req) ⊎ (erase i st.availible ≡ [])
      → (st' : Storage) × (allocate c size count st ≡ some (p + header_size, st'))
        × Carves lo hi (p, req) st.availible st'.availible
        × (st'.headers p ≡ size * count)
  allocate-Carves fit = (after, allocate-eq, carved fit, ground arith)

  split-eq :
      (d : Chunk) (r : Store)
      → erase i st.availible ≡ d ∷ r
      → req < s
      → left ≡ add modulus header_size (p + req) (s - req) (d ∷ r)
  split-eq d r e lt = rw (lt→ltb req s lt, e)

  -- A request that takes part of a chunk while other chunks are free: the rest goes back with the
  -- size of a header too many, so that the `header_size` bytes behind the chunk, which were not free,
  -- are free afterwards. The condition: no free chunk and no end of the
  -- ordered range is nearer behind the chunk than the size of a header.
  pub allocate_overclaims :
      (d : Chunk) (r : Store)
      → erase i st.availible ≡ d ∷ r
      → req < s
      → Apart (p, s + header_size) (d ∷ r)
      → p + (s + header_size) ≤ hi
      → (st' : Storage) × (allocate c size count st ≡ some (p + header_size, st'))
        × ((x : ℕ)
            → p + s ≤ x
            → x < p + (s + header_size)
            → (covered x st.availible ≡ false) × (covered x st'.availible ≡ true))
  allocate_overclaims d r e lt gap room = (
    after,
    allocate-eq,
    λ x ge below. (
      ground
          (arith, gone.covers x, ap (covered x) e, Apart-covered x p (s + header_size) (d ∷ r) gap),
      ground (arith, ap (covered x) (split-eq d r e lt), over.covers x),
    ),
  )
    where
      over :
          Extends lo hi
            (p + req, (s - req) + header_size)
            (d ∷ r)
            (add modulus header_size (p + req) (s - req) (d ∷ r))
      over =
          add-Extends modulus hi header_size lo (p + req) (s - req) d r f.narrow
            (subst (Separated lo hi) e gone.separated)
            (Apart-sub p (s + header_size) (p + req) (s - req + header_size) (d ∷ r) gap
              (omega arith) (omega arith))
            (omega (arith, gone.above)) (omega arith) (omega arith)
