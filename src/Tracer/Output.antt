-- ===== src/Tracer/Output.antt =====
-- What src/tracer.c prints, and its strings: `tracer_convert_string_to_utf8` and
-- `tracer_print_type_string`. What has been printed before an abort is left out.
use Prim.Native.Char.{code}
use Prim.Native.String.{String}
use libside.Common.{
  ℕ, ◌+◌, ◌*◌, Bool, true, false, ◌&&◌, Option, none, some, List, [], ◌∷◌, ◌==◌, leb, length,
  if◌then◌else◌, Outcome, ok, aborted, fault, ◌>>=◌,
}
use libside.Visit.Integers.{ByteOrder}

-- What printf() writes, by the conversions of its format; `text` is the format's own text, and a
-- literal that is an argument. A name of the application is a number, and `bytes` another string.
pub data Piece : Type 0 where
  text : String → Piece
  name : ℕ → Piece
  bytes : List ℕ → Piece
  unsigned : ℕ → Piece
  signed : ℕ → Piece
  octal : ℕ → Piece
  hex : ℕ → Piece
  hex_16 : ℕ → Piece
  float_g : ℕ → Piece

abbrev pub Printed : Type 0
Printed = Outcome (List Piece)

-- The code points of a text: its bytes, as it is ASCII.
abbrev pub codes : String → List ℕ
codes String.[] = []
codes (String.◌∷◌ c s) = code c ∷ codes s

-- A string as `struct side_type_raw_string` gives it: its units up to the null, and their size.
pub record RawString : Type 0 where
  pub units : List ℕ
  pub unit_size : ℕ
  pub byte_order : ByteOrder

-- The code sets that iconv() converts from.
pub data FromCode : Type 0 where
  utf_16 utf_32 : ByteOrder → FromCode

-- iconv() with a code set, the units and the size of the buffer: the bytes that it writes and the
-- number of input bytes that it leaves, if it opens and does not fail. malloc() is taken to succeed.
abbrev pub Iconv : Type 0
Iconv = FromCode → List ℕ → (bufsize : ℕ) → Option (List ℕ × ℕ)

-- The end of the conversion: the null is written behind what iconv() wrote.
abbrev pub finish : (bufsize : ℕ) → Option (List ℕ × ℕ) → Outcome (List ℕ)
finish bufsize none = aborted
finish bufsize (some (out, inbytesleft)) =
    if inbytesleft == 0 then (if leb bufsize (length out) then fault else ok out) else aborted

unfoldable pub tracer_convert_string_to_utf8 : Iconv → RawString → Outcome (List ℕ)
tracer_convert_string_to_utf8 iconv s =
    if s.unit_size == 1
    then ok s.units
    else (if s.unit_size == 2
        then (let bufsize = length s.units * 3 + 1 in
            finish bufsize (iconv (utf_16 s.byte_order) s.units bufsize))
        else (if s.unit_size == 4
            then (let bufsize = length s.units * 4 + 1 in
                finish bufsize (iconv (utf_32 s.byte_order) s.units bufsize))
            else aborted))

unfoldable pub tracer_print_type_string : Iconv → RawString → Printed
unfolding tracer_convert_string_to_utf8
tracer_print_type_string iconv s = do
  out ← tracer_convert_string_to_utf8 iconv s
  ok (text "\"" ∷ bytes out ∷ text "\"" ∷ [])

-- `!strcmp(...)`.
abbrev pub same_bytes : List ℕ → List ℕ → Bool
same_bytes [] [] = true
same_bytes (x ∷ xs) (y ∷ ys) = (x == y) && same_bytes xs ys
same_bytes _ _ = false
