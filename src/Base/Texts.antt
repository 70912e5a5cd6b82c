-- ===== src/Base/Texts.antt =====
-- Lists and sets of texts.
use Prim.Native.Nat.{ℕ}
use Prim.Native.Char.{code}
use Prim.Native.String
use Prim.Native.String.{String}
use text.Mathlib.Text.{◌==◌}
use text.Mathlib.TextEquality.{eq_iff}
use text.Mathlib.TextLemmas.{nil-append, cons-append}
use mathlib.Core.Path.{◌≡◌, refl, ap, ◌∙◌}
use mathlib.Core.Bool.{Bool, true, false, not, ◌||◌}
use mathlib.Core.List.{List, [], ◌∷◌, ◌++◌}
use native.Mathlib.Omega.{arith}
use mo_e_mo_a_integrated_com.Base.Tests.{if◌then◌else◌}
use mo_e_mo_a_integrated_com.Base.Lists.{keep_if, is_empty}

-- The code points of a text.
abbrev pub codes : String → List ℕ
codes String.[] = []
codes (String.◌∷◌ c s) = code c ∷ codes s

-- One text after the other.
abbrev pub joined : String → String → String
joined a b = String.◌++◌ a b

-- `x in xs` for a list or set of texts.
abbrev pub contains : String → List String → Bool
contains k [] = false
contains k (j ∷ js) = j == k || contains k js

-- dict.fromkeys(xs): the first occurrences, in order.
dedup_from : List String → List String → List String
dedup_from seen [] = []
dedup_from seen (x ∷ xs) =
    let fresh = x ∷ dedup_from (x ∷ seen) xs in
    let old = dedup_from seen xs in if contains x seen then old else fresh

unfoldable pub dedup : List String → List String
unfolding dedup_from
dedup = dedup_from []

contains-dedup_from :
    (j : String) (seen xs : List String)
    → contains j seen || contains j (dedup_from seen xs) ≡ contains j seen || contains j xs
unfolding dedup_from
contains-dedup_from j seen [] = refl
contains-dedup_from j seen (x ∷ xs) =
    ground (arith, eq_iff x j, contains-dedup_from j seen xs, contains-dedup_from j (x ∷ seen) xs)

pub contains-dedup : (j : String) (xs : List String) → contains j (dedup xs) ≡ contains j xs
unfolding dedup
contains-dedup j xs = contains-dedup_from j [] xs

-- No text stands twice.
abbrev pub NoDup : List String → Type 0
NoDup [] = Unit
NoDup (k ∷ ks) = (contains k ks ≡ false) × NoDup ks

pub contains-append_one :
    (k j : String) (xs : List String) → contains k (xs ++ j ∷ []) ≡ contains k xs || j == k
contains-append_one k j [] = ground arith
contains-append_one k j (x ∷ xs) = ground (arith, contains-append_one k j xs)

pub append_one-NoDup :
    (j : String) (xs : List String) → NoDup xs → contains j xs ≡ false → NoDup (xs ++ j ∷ [])
append_one-NoDup j [] d h = (refl, tt)
append_one-NoDup j (x ∷ xs) d h =
    ground (arith, append_one-NoDup j xs d.1, contains-append_one x j xs, eq_iff x j, eq_iff j x)

-- [x for x in xs if x != k]
pub contains-keep_ne :
    (k j : String) (xs : List String)
    → contains j (keep_if (λ x. not (x == k)) xs) ≡ (if k == j then false else contains j xs)
contains-keep_ne k j [] = ground arith
contains-keep_ne k j (x ∷ xs) =
    ground (arith, contains-keep_ne k j xs, eq_iff k j, eq_iff x k, eq_iff x j)

pub keep_ne-NoDup :
    (k : String) (xs : List String) → NoDup xs → NoDup (keep_if (λ x. not (x == k)) xs)
keep_ne-NoDup k [] d = tt
keep_ne-NoDup k (x ∷ xs) d =
    ground (arith, keep_ne-NoDup k xs d.1, contains-keep_ne k x xs, eq_iff k x, eq_iff x k)

pub string_same : (k j : String) → (k == j) ≡ true → k ≡ j
string_same k j h = (eq_iff k j).0 h

pub string_apart : (k j : String) → (k == j) ≡ (j == k)
string_apart k j = ground (arith, eq_iff k j, eq_iff j k)

-- A text after which another stands is blank only if that one is.
pub joined_not_blank :
    (a b : String) → is_empty (codes b) ≡ false → is_empty (codes (joined a b)) ≡ false
joined_not_blank String.[] b h = ap (λ t. is_empty (codes t)) (nil-append b) ∙ h
joined_not_blank (String.◌∷◌ c a) b h = ap (λ t. is_empty (codes t)) (cons-append c a b)

pub text_joined_not_blank :
    (a b : String) → is_empty (codes a) ≡ false → is_empty (codes (joined a b)) ≡ false
text_joined_not_blank String.[] b h = ground arith
text_joined_not_blank (String.◌∷◌ c a) b h = ap (λ t. is_empty (codes t)) (cons-append c a b)
