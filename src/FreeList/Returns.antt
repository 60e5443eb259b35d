-- ===== src/FreeList/Returns.antt =====
-- What `PolicyInterface::deallocate` gives back, and what an allocation followed by it leaves.
use native.Mathlib.Nat.{mod-eq_of_lt, mod-add-mod, add-mod_right}
use allocators.Common.{
  ℕ, ◌+◌, ◌-◌, ◌*◌, ◌%◌, ◌≤◌, ◌<◌, ◌≡◌, refl, ◌∙◌, ap, false, [], ◌∷◌, some, arith, subst, lt→ltb,
}
use allocators.FreeList.Policy.{Chunk, Store, add, erase, covered}
use allocators.FreeList.Merge.{Separated, Apart, Extends, add-Extends}
use allocators.FreeList.Interface.{Params, Storage, update, allocate, deallocate}
use allocators.FreeList.Blocks.{Finds, left, after, allocate-eq, ltb_self}

module _ (c : Params) (st : Storage) where
  open c use {modulus, header_size}

  deallocate-availible :
      (header : ℕ)
      → (deallocate c (header + header_size) st).availible
        ≡ add modulus header_size header (st.headers header) st.availible
  unfolding deallocate
  deallocate-availible header =
      let back : header + header_size - header_size ≡ header = omega arith in rw back

  -- A block that comes back while other chunks are free: the free bytes grow by exactly the block,
  -- header included, and the list stays ordered and coalesced. The block has met no free chunk, and
  -- lies in the ordered range, which is narrower than the word.
  pub deallocate-Extends :
      (lo hi header : ℕ) (d : Chunk) (r : Store)
      → st.availible ≡ d ∷ r
      → hi < modulus + lo
      → Separated lo hi st.availible
      → Apart (header, st.headers header + header_size) st.availible
      → lo ≤ header
      → 0 < st.headers header + header_size
      → header + (st.headers header + header_size) ≤ hi
      → Extends lo hi
          (header, st.headers header + header_size)
          st.availible
          (deallocate c (header + header_size) st).availible
  deallocate-Extends lo hi header d r e narrow sep gap above pos below =
      rw (deallocate-availible header, e)
        (add-Extends modulus hi header_size lo header (st.headers header) d r narrow
          (subst (Separated lo hi) e sep)
          (subst (Apart (header, st.headers header + header_size)) e gap) above pos below)

  -- A block that comes back while no chunk is free: the bytes of the user's part, counted from the
  -- header on, are all that is free afterwards. The last `header_size` bytes of the block are lost.
  pub deallocate_leaks :
      (header : ℕ)
      → st.availible ≡ []
      → ((deallocate c (header + header_size) st).availible ≡ (header, st.headers header) ∷ [])
        × ((x : ℕ)
            → header + st.headers header ≤ x
            → covered x (deallocate c (header + header_size) st).availible ≡ false)
  unfolding add
  deallocate_leaks header e = rw (deallocate-availible header, e) (refl, λ x h. ground arith)

-- A block carved from the front of a chunk is merged with the rest of the chunk.
add-front :
    (m h p n s : ℕ)
    → 0 < n + h
    → n + h < s
    → s < m
    → add m h p n ((p + (n + h), s - (n + h)) ∷ []) ≡ (p, s) ∷ []
unfolding add
add-front m h p n s pos lt small =
    let req : (n + h) % m ≡ n + h = mod-eq_of_lt (omega arith) in
    let sum : n + h + (s - (n + h)) ≡ s = omega arith in
    let whole : s % m ≡ s = mod-eq_of_lt small in rw req (ground (arith, sum, whole))

module _ (c : Params) (lo hi size count p s : ℕ) (st : Storage)
    (f : Finds c lo hi size count 0 p s st) (sole : st.availible ≡ (p, s) ∷ []) where
  open c use {modulus, header_size}

  abbrev req : ℕ
  req = size * count + header_size

  back : p + header_size - header_size ≡ p
  back = omega arith

  self : update st.headers p (size * count) p ≡ size * count
  self = ground arith

  left-part : req < s → left c lo hi size count 0 p s st f ≡ (p + req, s - req) ∷ []
  unfolding add erase
  left-part lt = rw (lt→ltb req s lt, sole)

  left-whole : s ≡ req → left c lo hi size count 0 p s st f ≡ []
  unfolding erase
  left-whole e = rw (ltb_self req s e, sole)

  free_back :
      st.bytes_free < modulus
      → ((st.bytes_free + modulus - req) % modulus + (size * count + header_size)) % modulus
        ≡ st.bytes_free
  free_back free =
      let sum : st.bytes_free + modulus - req + (size * count + header_size)
          ≡ st.bytes_free + modulus =
        omega (arith, f.small) in
      mod-add-mod (st.bytes_free + modulus - req) modulus (size * count + header_size)
      ∙ rw (sum, add-mod_right) (mod-eq_of_lt free)

  -- An allocation from the only free chunk, and the deallocation of its block: part of the chunk
  -- comes back as it was, and of a whole chunk the bytes of a header are missing; the count of free
  -- bytes is as before either way.
  pub deallocate-allocate :
      s < modulus
      → 0 < req
      → st.bytes_free < modulus
      → (st' : Storage) × (allocate c size count st ≡ some (p + header_size, st'))
        × (req < s → (deallocate c (p + header_size) st').availible ≡ (p, s) ∷ [])
        × (s ≡ req → (deallocate c (p + header_size) st').availible ≡ (p, s - header_size) ∷ [])
        × ((deallocate c (p + header_size) st').bytes_free ≡ st.bytes_free)
  unfolding add deallocate
  deallocate-allocate small pos free = (
    after c lo hi size count 0 p s st f,
    allocate-eq c lo hi size count 0 p s st f,
    λ lt.
        rw (back, self, left-part lt)
          (add-front modulus header_size p (size * count) s pos lt small),
    λ e. rw (back, self, left-whole e) (ap (λ (k : ℕ). (p, k) ∷ []) (omega arith)),
    rw (back, self) (free_back free),
  )
