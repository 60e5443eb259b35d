-- ===== src/SlabHelper/Search.antt =====
-- `SlabImpl::Cache::searchStore` finds a slab that holds the memory, if there is one.
use allocators.Common.{
  ℕ, suc, ◌<◌, ◌≡◌, refl, inl, inr, Bool, true, false, List, [], ◌∷◌, none, some, if◌then◌else◌,
  Bool-cases, arith, get_elem?, length,
}
use allocators.SlabHelper.SlabOps.{SlabOps}
use allocators.SlabHelper.Cache.{search_store}

module _ {S : Type 0} (ops : SlabOps S) where
  abbrev pub holds : ℕ → List S → Bool
  holds p [] = false
  holds p (s ∷ l) = if ops.contains_mem p s then true else holds p l

  pub record Finds (p : ℕ) (l : List S) : Type 0 where
    pub index : ℕ
    pub slab : S
    pub found : search_store ops p l ≡ some index
    pub below : index < length l
    pub at : get_elem? l index ≡ some slab
    pub contains : ops.contains_mem p slab ≡ true

  pub search_store-none : (p : ℕ) (l : List S) → holds p l ≡ false → search_store ops p l ≡ none
  unfolding search_store
  search_store-none p [] h = refl
  search_store-none p (s ∷ l) h = ground (arith, search_store-none p l)

  pub search_store-Finds : (p : ℕ) (l : List S) → holds p l ≡ true → Finds p l
  unfolding search_store
  search_store-Finds p [] h = absurd (cc)
  search_store-Finds p (s ∷ l) h = elim (Bool-cases (holds p l)) [
    | inl later ↦
        let f = search_store-Finds p l later in
        record {
          index = suc f.index;
          slab = f.slab;
          found = rw f.found;
          below = omega (arith, f.below);
          at = f.at;
          contains = f.contains;
        }
    | inr here ↦ record {
      index = 0;
      slab = s;
      found = ground (arith, search_store-none p l here);
      below = omega arith;
      at = refl;
      contains = ground arith;
    }
  ]
