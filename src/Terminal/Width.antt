-- ===== src/Terminal/Width.antt =====
-- terminal_width.rs: the widths that differ from those of `unicode-width`.
use mosh_client_rs.Prelude.{
  ℕ, Bool, false, ◌&&◌, ◌||◌, Option, some, List, [], ◌∷◌, leb, ◌==◌, if◌then◌else◌,
}
use mosh_client_rs.Terminal.Screen.{TerminalLibrary}

-- Ranges of code points, their ends included.
abbrev pub in_ranges : List (ℕ × ℕ) → ℕ → Bool
in_ranges [] c = false
in_ranges ((lo, hi) ∷ rs) c = leb lo c && leb c hi || in_ranges rs c

abbrev pub double_ranges : List (ℕ × ℕ)
double_ranges = (0x302e, 0x302f) ∷ (0x16ff0, 0x16ff1) ∷ (0x3248, 0x324f) ∷ []

abbrev pub single_ranges : List (ℕ × ℕ)
single_ranges =
    (0x00ad, 0x00ad)
    ∷ (0x0605, 0x0605)
    ∷ (0x070f, 0x070f)
    ∷ (0x0890, 0x0891)
    ∷ (0x08e2, 0x08e2)
    ∷ (0x09be, 0x09be)
    ∷ (0x09d7, 0x09d7)
    ∷ (0x0b3e, 0x0b3e)
    ∷ (0x0b57, 0x0b57)
    ∷ (0x0bbe, 0x0bbe)
    ∷ (0x0bd7, 0x0bd7)
    ∷ (0x0cc0, 0x0cc0)
    ∷ (0x0cc2, 0x0cc2)
    ∷ (0x0cc7, 0x0cc8)
    ∷ (0x0cca, 0x0ccb)
    ∷ (0x0cd5, 0x0cd6)
    ∷ (0x0d3e, 0x0d3e)
    ∷ (0x0d4e, 0x0d4e)
    ∷ (0x0d57, 0x0d57)
    ∷ (0x0dcf, 0x0dcf)
    ∷ (0x0ddf, 0x0ddf)
    ∷ (0x1715, 0x1715)
    ∷ (0x1734, 0x1734)
    ∷ (0x1b35, 0x1b35)
    ∷ (0x1b3b, 0x1b3b)
    ∷ (0x1b3d, 0x1b3d)
    ∷ (0x1b43, 0x1b44)
    ∷ (0x1baa, 0x1baa)
    ∷ (0x1bf2, 0x1bf3)
    ∷ (0x17a4, 0x17a4)
    ∷ (0x17d8, 0x17d8)
    ∷ (0xa8fa, 0xa8fa)
    ∷ (0xa953, 0xa953)
    ∷ (0xa9c0, 0xa9c0)
    ∷ (0xff9e, 0xff9f)
    ∷ (0x111c0, 0x111c0)
    ∷ (0x111c2, 0x111c3)
    ∷ (0x11235, 0x11235)
    ∷ (0x1133e, 0x1133e)
    ∷ (0x1134d, 0x1134d)
    ∷ (0x11357, 0x11357)
    ∷ (0x113b8, 0x113b8)
    ∷ (0x113c2, 0x113c2)
    ∷ (0x113c5, 0x113c5)
    ∷ (0x113c7, 0x113c9)
    ∷ (0x113cf, 0x113cf)
    ∷ (0x113d1, 0x113d1)
    ∷ (0x114b0, 0x114b0)
    ∷ (0x114bd, 0x114bd)
    ∷ (0x115af, 0x115af)
    ∷ (0x116b6, 0x116b6)
    ∷ (0x11930, 0x11930)
    ∷ (0x1193d, 0x1193d)
    ∷ (0x1193f, 0x1193f)
    ∷ (0x11941, 0x11941)
    ∷ (0x11a84, 0x11a89)
    ∷ (0x11d46, 0x11d46)
    ∷ (0x11f02, 0x11f02)
    ∷ (0x11f41, 0x11f41)
    ∷ (0x1d165, 0x1d166)
    ∷ (0x1d16d, 0x1d172)
    ∷ []

unfoldable pub width : TerminalLibrary → ℕ → Option ℕ
width l codepoint =
    if codepoint == 0x2d7f
    then some 0
    else if in_ranges double_ranges codepoint
    then some 2
    else if in_ranges single_ranges codepoint
    then some 1
    else l.unicode_width codepoint
