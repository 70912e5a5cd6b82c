-- ===== src/Dict.antt =====
-- Python's `dict` with text keys, as an association list in insertion order. Writing a key that is
-- there keeps its place, and a new key goes last; iteration and `next(iter(d))` follow that order.
use mo_e_mo_a_integrated_com.Base.{
  suc, ◌≤◌, String, ◌==◌, eq_iff, eq_refl, ◌≡◌, refl, true, false, Option, none, some, List, [],
  ◌∷◌, arith, if◌then◌else◌, is_some, length, is_empty,
}

abbrev pub Dict {ℓ} : Type ℓ → Type ℓ
Dict V = List (String × V)

module _ {ℓ} {V : Type ℓ} where
  -- d.get(key)
  unfoldable pub lookup : String → Dict V → Option V
  lookup key [] = none
  lookup key ((other, new) ∷ rest) = if other == key then some new else lookup key rest

  -- d.pop(key, None), del d[key]
  unfoldable pub remove : String → Dict V → Dict V
  remove key [] = []
  remove key ((other, new) ∷ rest) =
      let others = remove key rest in if other == key then others else (other, new) ∷ others

  -- d[key] = new
  unfoldable pub insert : String → V → Dict V → Dict V
  insert key new [] = (key, new) ∷ []
  insert key new ((other, old) ∷ rest) =
      if other == key then (other, new) ∷ rest else (other, old) ∷ insert key new rest

  -- list(d.values())
  abbrev pub values : Dict V → List V
  values [] = []
  values ((key, new) ∷ rest) = new ∷ values rest

  -- list(d)
  abbrev pub keys : Dict V → List String
  keys [] = []
  keys ((key, new) ∷ rest) = key ∷ keys rest

  pub lookup-insert :
      (key other : String) (new : V) (rest : Dict V)
      → lookup other (insert key new rest) ≡ (if key == other then some new else lookup other rest)
  unfolding lookup insert
  lookup-insert key other new [] = refl
  lookup-insert key other new ((head, old) ∷ rest) = ground (
    arith,
    eq_iff key other,
    eq_iff head key,
    eq_iff head other,
    lookup-insert key other new rest,
  )

  pub lookup-remove :
      (key other : String) (rest : Dict V)
      → lookup other (remove key rest) ≡ (if key == other then none else lookup other rest)
  unfolding lookup remove
  lookup-remove key other [] = ground arith
  lookup-remove key other ((head, old) ∷ rest) =
      ground
        (arith, eq_iff key other, eq_iff head key, eq_iff head other, lookup-remove key other rest)

  pub length-insert :
      (key : String) (new : V) (rest : Dict V)
      → length (insert key new rest)
        ≡ (if is_some (lookup key rest) then length rest else suc (length rest))
  unfolding lookup insert
  length-insert key new [] = refl
  length-insert key new ((head, old) ∷ rest) = ground (arith, length-insert key new rest)

  -- No key stands twice.
  abbrev pub UniqueKeys : Dict V → Type 0
  UniqueKeys [] = Unit
  UniqueKeys ((key, new) ∷ rest) = (is_some (lookup key rest) ≡ false) × UniqueKeys rest

  pub insert-UniqueKeys :
      (key : String) (new : V) (rest : Dict V) → UniqueKeys rest → UniqueKeys (insert key new rest)
  unfolding insert
  insert-UniqueKeys key new [] u = (unfold lookup in refl, tt)
  insert-UniqueKeys key new ((head, old) ∷ rest) u = ground (
    arith,
    insert-UniqueKeys key new rest u.1,
    lookup-insert key head new rest,
    eq_iff key head,
    eq_iff head key,
  )

  pub remove-UniqueKeys :
      (key : String) (rest : Dict V) → UniqueKeys rest → UniqueKeys (remove key rest)
  unfolding remove
  remove-UniqueKeys key [] u = tt
  remove-UniqueKeys key ((head, old) ∷ rest) u =
      ground (arith, remove-UniqueKeys key rest u.1, lookup-remove key head rest)

  pub remove_missing :
      (key : String) (rest : Dict V) → lookup key rest ≡ none → remove key rest ≡ rest
  unfolding lookup remove
  remove_missing key [] h = refl
  remove_missing key ((head, old) ∷ rest) h = ground (arith, remove_missing key rest)

  pub length-remove :
      (key : String) (rest : Dict V)
      → UniqueKeys rest
      → is_some (lookup key rest) ≡ true
      → suc (length (remove key rest)) ≡ length rest
  unfolding lookup remove
  length-remove key [] u h = cc
  length-remove key ((head, old) ∷ rest) u h =
      ground (arith, length-remove key rest u.1, remove_missing key rest, eq_iff head key)

  pub length-remove-le : (key : String) (rest : Dict V) → length (remove key rest) ≤ length rest
  unfolding remove
  length-remove-le key [] = omega arith
  length-remove-le key ((head, old) ∷ rest) = ground (arith, length-remove-le key rest)

  pub lookup_empty : (key : String) (rest : Dict V) → is_empty rest ≡ true → lookup key rest ≡ none
  unfolding lookup
  lookup_empty key [] h = refl
  lookup_empty key (x ∷ rest) h = cc

  -- A dictionary in which no key is found is empty.
  pub empty_of_lookup :
      (rest : Dict V) → ((key : String) → is_some (lookup key rest) ≡ false) → is_empty rest ≡ true
  unfolding lookup
  empty_of_lookup [] h = refl
  empty_of_lookup ((key, new) ∷ rest) h = ground (arith, h key, eq_refl key)
