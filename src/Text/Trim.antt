-- ===== src/Text/Trim.antt =====
-- Rust's `str::trim`, and where it leaves a text alone.
use remotelink.Prelude.{ℕ, ◌<◌, ◌≡◌, refl, false, List, [], ◌∷◌, ◌++◌, if◌then◌else◌, arith, All}
use remotelink.Text.{is_whitespace, as_bytes, encode_utf8}

unfoldable pub trim_start : List ℕ → List ℕ
unfolding is_whitespace
trim_start [] = []
trim_start (c ∷ cs) = let rest = trim_start cs in if is_whitespace c then rest else c ∷ cs

-- A character in front of a text whose end is trimmed
unfoldable pub before_trimmed : ℕ → List ℕ → List ℕ
unfolding is_whitespace
before_trimmed c [] = if is_whitespace c then [] else c ∷ []
before_trimmed c (d ∷ ds) = c ∷ d ∷ ds

unfoldable pub trim_end : List ℕ → List ℕ
unfolding before_trimmed
trim_end [] = []
trim_end (c ∷ cs) = before_trimmed c (trim_end cs)

unfoldable pub trim : List ℕ → List ℕ
unfolding trim_start trim_end
trim cs = trim_end (trim_start cs)

-- A visible ASCII character
abbrev pub IsInk : ℕ → Type 0
IsInk c = (is_whitespace c ≡ false) × (c < 0x80)

trim_end-last :
    (cs : List ℕ) (c : ℕ) → is_whitespace c ≡ false → trim_end (cs ++ (c ∷ [])) ≡ cs ++ (c ∷ [])
unfolding trim_end before_trimmed
trim_end-last [] c h = ground arith
trim_end-last (d ∷ []) c h = ground arith
trim_end-last (d ∷ e ∷ cs) c h = ground (arith, trim_end-last (e ∷ cs) c h)

-- A text that begins and ends with a visible character is not trimmed.
pub trim-enclosed :
    (c : ℕ) (cs : List ℕ) (d : ℕ)
    → is_whitespace c ≡ false
    → is_whitespace d ≡ false
    → trim (c ∷ (cs ++ (d ∷ []))) ≡ c ∷ (cs ++ (d ∷ []))
unfolding trim trim_start
trim-enclosed c cs d h k = ground (arith, trim_end-last (c ∷ cs) d k)

trim_end-ink : (cs : List ℕ) → All IsInk cs → trim_end cs ≡ cs
unfolding trim_end before_trimmed
trim_end-ink [] h = refl
trim_end-ink (c ∷ cs) (k, h) = ground (arith, trim_end-ink cs h)

-- Nor is one of visible characters only.
pub trim-ink : (cs : List ℕ) → All IsInk cs → trim cs ≡ cs
unfolding trim trim_start
trim-ink [] h = unfold trim_end in refl
trim-ink (c ∷ cs) (k, h) = ground (arith, trim_end-ink (c ∷ cs) (k, h))

pub as_bytes-ink : (cs : List ℕ) → All IsInk cs → as_bytes cs ≡ cs
unfolding as_bytes encode_utf8
as_bytes-ink [] h = refl
as_bytes-ink (c ∷ cs) (k, h) = ground (arith, as_bytes-ink cs h)
