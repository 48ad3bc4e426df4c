-- ===== src/Cache/FileSystem/Paths.antt =====
-- `os.path.join` and `_get_file_path`: which keys have files of their own.
use Prim.Native.Char.{code}
use Prim.Native.String.{String, ◌++◌}
use text.Mathlib.TextLemmas.{append_cancel_left, append_cancel_right, cons-append}
use cat_forked.Prelude.{
  ◌≡◌, refl, Bool, false, ◌==◌, eq_iff, if◌then◌else◌, leb, ◌&&◌, ◌||◌, arith, Bool-cases, inl, inr,
}

abbrev pub begins_slash : String → Bool
begins_slash String.[] = false
begins_slash (String.◌∷◌ c s) = leb (code c) b'/' && leb b'/' (code c)

-- A key with a slash is no name of a file, and names one elsewhere.
abbrev pub has_slash : String → Bool
has_slash String.[] = false
has_slash (String.◌∷◌ c s) = (leb (code c) b'/' && leb b'/' (code c)) || has_slash s

begins_slash-plain : (s : String) → has_slash s ≡ false → begins_slash s ≡ false
begins_slash-plain String.[] h = refl
begins_slash-plain (String.◌∷◌ c s) h = ground arith

abbrev ends_slash : String → Bool
ends_slash String.[] = false
ends_slash (String.◌∷◌ c String.[]) = leb (code c) b'/' && leb b'/' (code c)
ends_slash (String.◌∷◌ c (String.◌∷◌ d s)) = ends_slash (String.◌∷◌ d s)

-- `os.path.join(a, b)`: an absolute second part replaces the first.
unfoldable pub join_path : String → String → String
join_path a b =
    if begins_slash b then b else if a == "" || ends_slash a then a ++ b else a ++ ("/" ++ b)

unfoldable pub get_file_path : String → String → String
unfolding join_path
get_file_path dir key = join_path dir (key ++ ".cache")

begins_slash-file :
    (key : String) → begins_slash key ≡ false → begins_slash (key ++ ".cache") ≡ false
begins_slash-file String.[] h = refl
begins_slash-file (String.◌∷◌ c s) h = rw (cons-append c s ".cache") h

join_path_inj :
    (a b d : String)
    → begins_slash b ≡ false
    → begins_slash d ≡ false
    → join_path a b ≡ join_path a d
    → b ≡ d
unfolding join_path
join_path_inj a b d hb hd e = elim (Bool-cases (a == "" || ends_slash a)) [
  | inl whole ↦ append_cancel_left a b d (rw (hb, hd, whole) at e)
  | inr split ↦
      append_cancel_left "/" b d
        (append_cancel_left a ("/" ++ b) ("/" ++ d) (rw (hb, hd, split) at e))
]

get_file_path_inj :
    (dir k j : String)
    → begins_slash k ≡ false
    → begins_slash j ≡ false
    → get_file_path dir k ≡ get_file_path dir j
    → k ≡ j
unfolding get_file_path
get_file_path_inj dir k j hk hj e = append_cancel_right k j ".cache" (
    join_path_inj dir (k ++ ".cache") (j ++ ".cache") (begins_slash-file k hk)
      (begins_slash-file j hj) e)

-- The store compares paths where its caller compares keys. Two keys without a slash name two files of the
-- directory.
pub get_file_path-eq :
    (dir k j : String)
    → has_slash k ≡ false
    → has_slash j ≡ false
    → (get_file_path dir k == get_file_path dir j) ≡ (k == j)
get_file_path-eq dir k j hk hj = ground (
  arith,
  eq_iff k j,
  eq_iff (get_file_path dir k) (get_file_path dir j),
  get_file_path_inj dir k j (begins_slash-plain k hk) (begins_slash-plain j hj),
)
