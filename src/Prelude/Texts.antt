-- ===== src/Prelude/Texts.antt =====
-- Python's `x in s` and `s.replace(x, "")` on texts.
use Prim.Native.Nat.{ℕ, zero, suc, ◌+◌, ◌-◌}
use Prim.Native.Char.{Char, code}
use Prim.Native.String.{String, ◌++◌}
use mathlib.Core.Path.{◌≡◌, refl, ap}
use mathlib.Core.Bool.{Bool, true, false, ◌&&◌, ◌||◌}
use native.Mathlib.Omega.{arith}
use text.Mathlib.TextLemmas.{cons-append, nil-append}
use cat_forked.Prelude.Tests.{leb, if◌then◌else◌}

abbrev pub same_char : Char → Char → Bool
same_char c d = leb (code c) (code d) && leb (code d) (code c)

-- `s.startswith(p)`, letter by letter
abbrev pub begins : String → String → Bool
begins String.[] s = true
begins (String.◌∷◌ c p) String.[] = false
begins (String.◌∷◌ c p) (String.◌∷◌ d s) = same_char c d && begins p s

-- `p in s`
abbrev pub within : String → String → Bool
within p String.[] = begins p String.[]
within p (String.◌∷◌ c s) = begins p (String.◌∷◌ c s) || within p s

abbrev pub count : String → ℕ
count String.[] = 0
count (String.◌∷◌ c s) = suc (count s)

-- Leaves out the next `skip` letters, and each later occurrence of `p` from the left.
abbrev pub remove_from : String → ℕ → String → String
remove_from p skip String.[] = String.[]
remove_from p (suc skip) (String.◌∷◌ c s) = remove_from p skip s
remove_from p zero (String.◌∷◌ c s) =
    let after = remove_from p (count p - 1) s in
    let kept = String.◌∷◌ c (remove_from p zero s) in
    if begins p (String.◌∷◌ c s) then after else kept

-- `s.replace(p, "")` for a `p` that is not empty
unfoldable pub remove_text : String → String → String
remove_text p s = remove_from p zero s

remove_from-absent : (p s : String) → within p s ≡ false → remove_from p zero s ≡ s
remove_from-absent p String.[] h = refl
remove_from-absent p (String.◌∷◌ c s) h = ground (arith, remove_from-absent p s)

-- A text that does not hold `p` is left as it is.
pub remove_text-absent : (p s : String) → within p s ≡ false → remove_text p s ≡ s
unfolding remove_text
remove_text-absent p s h = remove_from-absent p s h

begins-append : (p t : String) → begins p (p ++ t) ≡ true
begins-append String.[] t = refl
begins-append (String.◌∷◌ c p) t = rw (cons-append c p t) (ground (arith, begins-append p t))

remove_from-skip : (p q t : String) → remove_from p (count q) (q ++ t) ≡ remove_from p zero t
remove_from-skip p String.[] t = rw (nil-append t)
remove_from-skip p (String.◌∷◌ c q) t = rw (cons-append c q t) (remove_from-skip p q t)

count-sub-one : (c : Char) (p : String) → count (String.◌∷◌ c p) - 1 ≡ count p
count-sub-one c p = omega arith

-- A leading `p` is taken off, and the rest is searched.
pub remove_text-append :
    (c : Char) (p t : String)
    → remove_text (String.◌∷◌ c p) (String.◌∷◌ c p ++ t) ≡ remove_text (String.◌∷◌ c p) t
unfolding remove_text
remove_text-append c p t = rw (cons-append c p t) (
    ground (
      arith,
      begins-append p t,
      ap (λ (n : ℕ). remove_from (String.◌∷◌ c p) n (p ++ t)) (count-sub-one c p),
      remove_from-skip (String.◌∷◌ c p) p t,
    ))

-- `p` is found in what begins with it.
pub within-append : (c : Char) (p t : String) → within (String.◌∷◌ c p) (String.◌∷◌ c p ++ t) ≡ true
within-append c p t = rw (cons-append c p t) (ground (arith, begins-append p t))

-- The code of the lower-case form of an ASCII letter. No other letter has a lower-case form among
-- the letters of `true`.
abbrev pub lower_code : ℕ → ℕ
lower_code n = if leb b'A' n && leb n b'Z' then n + 32 else n

abbrev pub begins_lower : String → String → Bool
begins_lower String.[] s = true
begins_lower (String.◌∷◌ c p) String.[] = false
begins_lower (String.◌∷◌ c p) (String.◌∷◌ d s) =
    leb (code c) (lower_code (code d)) && leb (lower_code (code d)) (code c) && begins_lower p s

-- `p in s.lower()`, for a `p` of the letters of `true`
abbrev pub within_lower : String → String → Bool
within_lower p String.[] = begins_lower p String.[]
within_lower p (String.◌∷◌ c s) = begins_lower p (String.◌∷◌ c s) || within_lower p s
