-- ===== src/Detection/Grouping.antt =====
-- `grouped = defaultdict(list)` with `grouped[key(e)].append(e)` for each element: the groups in the
-- order of their first elements.
use soc_analyst.Prelude.{
  ◌≡◌, refl, sym, ap, ◌∙◌, ◌↔◌, Bool, true, false, ◌&&◌, ◌||◌, List, [], ◌∷◌, ◌++◌, arith, All, any,
  keep, if◌then◌else◌, Bool-cases, inl, inr,
}

pub record Group (K L : Type 0) : Type 0 where
  pub key : K
  pub members : List L

pub record KeyEquality (K : Type 0) : Type 0 where
  pub same : K → K → Bool
  pub same_iff : (a b : K) → (same a b ≡ true) ↔ (a ≡ b)

module _ {K L : Type 0} ⦃q : KeyEquality K⦄ (key_of : L → K) where
  unfoldable pub add_to : L → List (Group K L) → List (Group K L)
  add_to e [] = record { key = key_of e; members = e ∷ [] } ∷ []
  add_to e (g ∷ gs) =
      let later = add_to e gs in
      if q.same (key_of e) g.key then record g { members = g.members ++ e ∷ [] } ∷ gs else g ∷ later

  unfoldable pub group_from : List (Group K L) → List L → List (Group K L)
  unfolding add_to
  group_from gs [] = gs
  group_from gs (e ∷ es) = group_from (add_to e gs) es

  unfoldable pub group_by : List L → List (Group K L)
  unfolding group_from
  group_by es = group_from [] es

module _ {K L : Type 0} ⦃q : KeyEquality K⦄ where
  -- `grouped[key]`, or no element
  abbrev pub members_of : K → List (Group K L) → List L
  members_of k [] = []
  members_of k (g ∷ gs) = let later = members_of k gs in if q.same k g.key then g.members else later

  abbrev pub has_key : K → List (Group K L) → Bool
  has_key k gs = any (λ g. q.same k g.key) gs

  -- no key twice
  abbrev pub UniqueKeys : List (Group K L) → Type 0
  UniqueKeys [] = Unit
  UniqueKeys (g ∷ gs) = (has_key g.key gs ≡ false) × UniqueKeys gs

module _ {K L : Type 0} ⦃q : KeyEquality K⦄ (key_of : L → K) where
  members_of-add_to :
      (k : K) (e : L) (gs : List (Group K L))
      → members_of k (add_to key_of e gs)
        ≡ (if q.same k (key_of e) then members_of k gs ++ e ∷ [] else members_of k gs)
  unfolding add_to
  members_of-add_to k e [] = ground arith
  members_of-add_to k e (g ∷ gs) = ground (
    arith,
    members_of-add_to k e gs,
    q.same_iff (key_of e) g.key,
    q.same_iff k (key_of e),
    q.same_iff k g.key,
  )

  has_key-add_to :
      (k : K) (e : L) (gs : List (Group K L))
      → has_key k (add_to key_of e gs) ≡ has_key k gs || q.same k (key_of e)
  unfolding add_to
  has_key-add_to k e [] = ground arith
  has_key-add_to k e (g ∷ gs) = ground (arith, has_key-add_to k e gs, q.same_iff (key_of e) g.key)

  append_nested : (xs : List L) (e : L) (ys : List L) → (xs ++ e ∷ []) ++ ys ≡ xs ++ e ∷ ys
  append_nested [] e ys = refl
  append_nested (x ∷ xs) e ys = ap (λ l. x ∷ l) (append_nested xs e ys)

  append_nil : (xs : List L) → xs ++ [] ≡ xs
  append_nil [] = refl
  append_nil (x ∷ xs) = ap (λ l. x ∷ l) (append_nil xs)

  UniqueKeys-add_to :
      (e : L) (gs : List (Group K L)) → UniqueKeys gs → UniqueKeys (add_to key_of e gs)
  unfolding add_to
  UniqueKeys-add_to e [] h = (refl, tt)
  UniqueKeys-add_to e (g ∷ gs) h = elim (Bool-cases (q.same (key_of e) g.key)) [
    | inl s ↦ rw s h
    | inr s ↦ rw s (
      ground (
        arith,
        has_key-add_to g.key e gs,
        h.0,
        s,
        q.same_iff (key_of e) g.key,
        q.same_iff g.key (key_of e),
      ),
      UniqueKeys-add_to e gs h.1,
    )
  ]

  members_of-group_from :
      (k : K) (es : List L) (gs : List (Group K L))
      → members_of k (group_from key_of gs es)
        ≡ members_of k gs ++ keep (λ e. q.same k (key_of e)) es
  unfolding group_from
  members_of-group_from k [] gs = sym (append_nil (members_of k gs))
  members_of-group_from k (e ∷ es) gs =
      members_of-group_from k es (add_to key_of e gs)
      ∙ (ap (λ l. l ++ keep (λ x. q.same k (key_of x)) es) (members_of-add_to k e gs)
          ∙ ground (arith, append_nested (members_of k gs) e (keep (λ x. q.same k (key_of x)) es)))

  -- The group of a key holds the elements with that key, in their order.
  pub members_of-group_by :
      (k : K) (es : List L) → members_of k (group_by key_of es) ≡ keep (λ e. q.same k (key_of e)) es
  unfolding group_by
  members_of-group_by k es = members_of-group_from k es []

  UniqueKeys-group_from :
      (es : List L) (gs : List (Group K L)) → UniqueKeys gs → UniqueKeys (group_from key_of gs es)
  unfolding group_from
  UniqueKeys-group_from [] gs h = h
  UniqueKeys-group_from (e ∷ es) gs h = UniqueKeys-group_from es _ (UniqueKeys-add_to e gs h)

  -- No key has two groups.
  pub UniqueKeys-group_by : (es : List L) → UniqueKeys (group_by key_of es)
  unfolding group_by
  UniqueKeys-group_by es = UniqueKeys-group_from es [] tt

module _ {K L : Type 0} ⦃q : KeyEquality K⦄ where
  has_key_of :
      (k j : K) (gs : List (Group K L))
      → q.same k j ≡ true
      → has_key j gs ≡ false
      → has_key k gs ≡ false
  has_key_of k j gs e h = rw ((q.same_iff k j).0 e) h

  absent : (k : K) (gs : List (Group K L)) → has_key k gs ≡ false → members_of k gs ≡ []
  absent k [] h = refl
  absent k (g ∷ gs) h = ground (arith, absent k gs)

  -- A test that no empty group passes finds the one group of a key.
  pub any-UniqueKeys :
      (k : K) (p : List L → Bool) (gs : List (Group K L))
      → p [] ≡ false
      → UniqueKeys gs
      → any (λ g. q.same k g.key && p g.members) gs ≡ p (members_of k gs)
  any-UniqueKeys k p [] h u = sym h
  any-UniqueKeys k p (g ∷ gs) h u = elim (Bool-cases (q.same k g.key)) [
    | inl e ↦
        rw e (
          ground (arith, any-UniqueKeys k p gs h u.1, absent k gs (has_key_of k g.key gs e u.0), h))
    | inr e ↦ rw e (any-UniqueKeys k p gs h u.1)
  ]

  All-weaken :
      (g : Group K L) (gs hs : List (Group K L))
      → has_key g.key hs ≡ false
      → All (λ h. h.members ≡ members_of h.key gs) hs
      → All (λ h. h.members ≡ members_of h.key (g ∷ gs)) hs
  All-weaken g gs [] n h = tt
  All-weaken g gs (h ∷ hs) n k = (
    ground (arith, q.same_iff h.key g.key, q.same_iff g.key h.key, k.0),
    All-weaken g gs hs (ground arith) k.1,
  )

  -- Each group is the one that its key finds.
  pub members_of_key :
      (gs : List (Group K L)) → UniqueKeys gs → All (λ g. g.members ≡ members_of g.key gs) gs
  members_of_key [] u = tt
  members_of_key (g ∷ gs) u =
      (ground (arith, q.same_iff g.key g.key), All-weaken g gs gs u.0 (members_of_key gs u.1))
