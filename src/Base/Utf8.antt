-- ===== src/Base/Utf8.antt =====
-- utf8.ValidString of the standard library, byte by byte.
use Prim.Native.Nat.{ℕ, zero, suc}
use Prim.Native.String.{String}
use mathlib.Core.Bool.{Bool, true, false, ◌&&◌}
use mathlib.Core.List.{List, [], ◌∷◌}
use delivery_backend.Base.Tests.{ltb, leb, if◌then◌else◌}
use delivery_backend.Base.Lists.{bytes}

-- Between two runes, or inside one: `more` bytes follow the next one, which lies in a range.
pub data Utf8 : Type 0 where
  start : Utf8
  inside : (more lo hi : ℕ) → Utf8
  bad : Utf8

abbrev between : ℕ → ℕ → ℕ → Bool
between lo hi b = leb lo b && leb b hi

unfoldable pub lead : ℕ → Utf8
lead b =
    if ltb b 0x80
    then start
    else if between 0xc2 0xdf b
    then inside 0 0x80 0xbf
    else if between 0xe0 0xe0 b
    then inside 1 0xa0 0xbf
    else if between 0xed 0xed b
    then inside 1 0x80 0x9f
    else if between 0xe1 0xef b
    then inside 1 0x80 0xbf
    else if between 0xf0 0xf0 b
    then inside 2 0x90 0xbf
    else if between 0xf1 0xf3 b
    then inside 2 0x80 0xbf
    else if between 0xf4 0xf4 b
    then inside 2 0x80 0x8f
    else bad

unfoldable pub step : Utf8 → ℕ → Utf8
unfolding lead
step start b = lead b
step (inside zero lo hi) b = if between lo hi b then start else bad
step (inside (suc k) lo hi) b = if between lo hi b then inside k 0x80 0xbf else bad
step bad b = bad

unfoldable pub scan : Utf8 → List ℕ → Bool
unfolding step
scan start [] = true
scan _ [] = false
scan st (b ∷ s) = scan (step st b) s

unfoldable pub valid_string : String → Bool
unfolding scan
valid_string s = scan start (bytes s)
