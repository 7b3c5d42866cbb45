-- ===== src/Memory/Balance.antt =====
-- Who refers to a block: on a heap in balance each live block is referred to once, and no other.
use native.Mathlib.Decide.{ℕ_discrete}
use pub_sub_crawl.Base.{
  ℕ, zero, suc, ◌+◌, ◌≡◌, ◌∙◌, refl, ap, Option, none, some, List, [], ◌∷◌, ◌++◌, arith, ◌==◌,
  if◌then◌else◌, length, get_or, set, get_or-set_ne,
}
use pub_sub_crawl.Message.{Object}
use pub_sub_crawl.Memory.{weight, get_or-append_old, get_or-lt}

abbrev pub Cells : Type 0
Cells = List (Option Object)

-- How many live blocks have the number `p`.
abbrev pub alive : Cells → ℕ → ℕ
alive cs p = weight (get_or cs p none)

abbrev pub at_most_this : ℕ → ℕ → ℕ
at_most_this q p = if q == p then 1 else 0

pub at_most_this_self : (p : ℕ) → at_most_this p p ≡ 1
at_most_this_self p = ground arith

get_or-append_none : (cs : Cells) (p : ℕ) → get_or (cs ++ none ∷ []) p none ≡ get_or cs p none
get_or-append_none [] zero = refl
get_or-append_none [] (suc p) = refl
get_or-append_none (c ∷ cs) zero = refl
get_or-append_none (c ∷ cs) (suc p) = get_or-append_none cs p

-- What calls of `malloc` and `free` do to it.
pub alive-failed : (cs : Cells) (p : ℕ) → alive (cs ++ none ∷ []) p ≡ alive cs p
alive-failed cs p = ap weight (get_or-append_none cs p)

pub alive-append :
    (cs : Cells) (o : Object) (p : ℕ)
    → alive (cs ++ some o ∷ []) p ≡ alive cs p + at_most_this (length cs) p
alive-append [] o zero = refl
alive-append [] o (suc p) = ground arith
alive-append (c ∷ cs) o zero = ground arith
alive-append (c ∷ cs) o (suc p) = ground (arith, alive-append cs o p)

pub set-none-gone : (cs : Cells) (p : ℕ) → get_or (set cs p none) p none ≡ none
set-none-gone [] p = refl
set-none-gone (c ∷ cs) zero = refl
set-none-gone (c ∷ cs) (suc p) = set-none-gone cs p

pub alive-set-none :
    (cs : Cells) (q : ℕ) (o : Object) (p : ℕ)
    → get_or cs q none ≡ some o
    → alive (set cs q none) p + at_most_this q p ≡ alive cs p
alive-set-none cs q o p e = elim (ℕ_discrete q p) [
  | yes same ↦ let gone = set-none-gone cs q in rw (← same) (ground (arith, e))
  | no ne ↦ let kept = get_or-set_ne cs {i = q} {j = p} none none ne in ground arith
]

-- The live blocks of `cs` are live and the same in `ds`.
abbrev pub Extends : Cells → Cells → Type 0
Extends cs ds = (p : ℕ) (o : Object) → get_or cs p none ≡ some o → get_or ds p none ≡ some o

pub Extends-append : (cs : Cells) (c : Option Object) → Extends cs (cs ++ c ∷ [])
Extends-append cs c p o e = get_or-append_old cs c p (get_or-lt cs p o e) ∙ e

pub Extends-trans : (cs ds es : Cells) → Extends cs ds → Extends ds es → Extends cs es
Extends-trans cs ds es h k p o e = k p o (h p o e)
