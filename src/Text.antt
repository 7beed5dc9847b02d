-- ===== src/Text.antt =====
-- Python string methods that the program calls, over native texts.
use Prim.Native.Char.{code}
use Prim.Native.String.{slice, len, count}
use text.Mathlib.Text.{find?}
use kratos_agent_guard.Prelude.{
  ℕ, String, ◌≡◌, refl, Bool, true, false, ◌&&◌, ◌||◌, none, some, leb, eqb, ◌==◌, if◌then◌else◌,
}

-- The code points for which `str.isspace` holds.
abbrev is_space : ℕ → Bool
is_space c =
    (leb 9 c && leb c 13)
    || (leb 28 c && leb c 32)
    || eqb c 133
    || eqb c 160
    || eqb c 5760
    || (leb 8192 c && leb c 8202)
    || eqb c 8232
    || eqb c 8233
    || eqb c 8239
    || eqb c 8287
    || eqb c 12288

strip_start : String → String
strip_start String.[] = ""
strip_start (String.◌∷◌ c s) =
    let rest = strip_start s in if is_space (code c) then rest else String.◌∷◌ c s

strip_end : String → String
strip_end String.[] = ""
strip_end (String.◌∷◌ c s) =
    let rest = strip_end s in if is_space (code c) && rest == "" then "" else String.◌∷◌ c rest

-- `s.strip()`
unfoldable pub strip : String → String
unfolding strip_start strip_end
strip s = strip_end (strip_start s)

strip_both : strip "  a b \t" ≡ "a b"
unfolding strip
strip_both = refl

-- `s[:16]`, for the ASCII texts that the program cuts
unfoldable pub first_sixteen : String → String
first_sixteen s = if leb (len s) 16 then s else slice s 0 16

-- `piece in s`
unfoldable pub has_piece : String → String → Bool
has_piece s piece = elim (find? s piece) [ none ↦ false | some _ ↦ true ]

has_piece_example : has_piece "Everyone:(F)" "(F)" ≡ true
unfolding has_piece
has_piece_example = refl

first_sixteen_example : first_sixteen "0123456789abcdefXX" ≡ "0123456789abcdef"
unfolding first_sixteen
first_sixteen_example = refl

-- Whether every character passes a test.
unfoldable pub all_characters : (ℕ → Bool) → String → Bool
all_characters test String.[] = true
all_characters test (String.◌∷◌ c s) = test (code c) && all_characters test s

-- The length bounds of a pydantic `Field`, counted in characters.
unfoldable pub has_length : ℕ → ℕ → String → Bool
has_length least most s = leb least (count s) && leb (count s) most

abbrev is_hex_digit : ℕ → Bool
is_hex_digit c = (leb b'0' c && leb c b'9') || (leb b'a' c && leb c b'f')

-- `^[a-f0-9]{64}$`
unfoldable pub is_digest : String → Bool
unfolding all_characters has_length
is_digest s = has_length 64 64 s && all_characters is_hex_digit s

abbrev is_event_character : ℕ → Bool
is_event_character c =
    (leb b'a' c && leb c b'z')
    || (leb b'0' c && leb c b'9')
    || eqb c b'.'
    || eqb c b'_'
    || eqb c b'-'

-- `min_length=1, max_length=100, pattern=r"^[a-z0-9._-]+$"`
unfoldable pub is_event_type : String → Bool
unfolding all_characters has_length
is_event_type s = has_length 1 100 s && all_characters is_event_character s

-- `^[a-f0-9]{32}$`
unfoldable pub is_identifier : String → Bool
unfolding all_characters has_length
is_identifier s = has_length 32 32 s && all_characters is_hex_digit s

-- `^[a-f0-9]{16}$`
unfoldable pub is_folder_id : String → Bool
unfolding all_characters has_length
is_folder_id s = has_length 16 16 s && all_characters is_hex_digit s

-- `s.startswith(prefix)`
unfoldable pub starts_with : String → String → Bool
starts_with String.[] s = true
starts_with (String.◌∷◌ c prefix) String.[] = false
starts_with (String.◌∷◌ c prefix) (String.◌∷◌ d s) = eqb (code c) (code d) && starts_with prefix s
