-- ===== src/Tracer/Printing/Brackets.antt =====
-- The brackets in the text that src/tracer.c prints.
use Prim.Native.String.{String}
use mathlib.Core.List.{append_assoc}
use libside.Common.{
  ℕ, ◌≡◌, refl, ap, ◌∙◌, Bool, true, false, Option, none, some, List, [], ◌∷◌, ◌++◌, ◌==◌,
  if◌then◌else◌, Ensures, Ensures-ok, Ensures-aborted, Ensures->>=, Ensures->>, Bool-cases, inl,
  inr,
}
use libside.Visit.Integers.{IntValue}
use libside.Visit.Types.{u8, u16, u32, u64, u128, s8, s16, s32, s64, s128}
use libside.Visit.Bounds.{Ensures-if}
use libside.Tracer.Output.{
  Piece, text, bytes, hex, hex_16, float_g, RawString, codes, Iconv, tracer_convert_string_to_utf8,
  tracer_print_type_string,
}
use libside.Tracer.Attributes.{
  Attr, AttrValue, bool_attr, integer_attr, float_attr, string_attr, unknown_attr, print_hex,
  print_bool, print_attr_value, tracer_print_attr_type, print_attrs, print_attributes,
}

pub data Bracket : Type 0 where
  brace square : Bracket

-- A character of a text, with the brackets that are open, the innermost first.
abbrev close : Bracket → List Bracket → Option (List Bracket)
close brace (brace ∷ opened) = some opened
close square (square ∷ opened) = some opened
close _ _ = none

abbrev scan_char : ℕ → List Bracket → Option (List Bracket)
scan_char c opened =
    if c == b'{'
    then some (brace ∷ opened)
    else (if c == b'['
        then some (square ∷ opened)
        else (if c == b'}'
            then close brace opened
            else (if c == b']' then close square opened else some opened)))

abbrev scan : List ℕ → List Bracket → Option (List Bracket)
scan [] opened = some opened
scan (c ∷ cs) opened = elim (scan_char c opened) [ some next ↦ scan cs next | none ↦ none ]

abbrev pub scan_piece : Piece → List Bracket → Option (List Bracket)
scan_piece (text s) opened = scan (codes s) opened
scan_piece _ opened = some opened

-- The brackets that are open after what the tracer itself has printed, given those that are open before
-- it; none if one is closed that is not the innermost open one. What the application's strings and the
-- numbers are printed as does not count.
unfoldable pub brackets : List Piece → List Bracket → Option (List Bracket)
brackets [] opened = some opened
brackets (p ∷ ps) opened = elim (scan_piece p opened) [ some next ↦ brackets ps next | none ↦ none ]

-- What is printed takes the open brackets from one state to another, whatever follows.
unfoldable pub Moves : List Piece → (before after : List Bracket) → Type 0
Moves ps before after = (rest : List Piece) → brackets (ps ++ rest) before ≡ brackets rest after

pub Moves-nil : (o : List Bracket) → Moves [] o o
unfolding Moves
Moves-nil o rest = refl

pub Moves-append :
    (xs ys : List Piece) (a b c : List Bracket) → Moves xs a b → Moves ys b c → Moves (xs ++ ys) a c
unfolding Moves
Moves-append xs ys a b c h k rest =
    ap (λ ps. brackets ps a) (append_assoc xs ys rest) ∙ h (ys ++ rest) ∙ k rest

abbrev pub Closed : List Piece → Type 0
Closed ps = (o : List Bracket) → Moves ps o o

-- A piece, and what follows it.
pub Moves-cons :
    (p : Piece) (ps : List Piece) (a b c : List Bracket)
    → scan_piece p a ≡ some b
    → Moves ps b c
    → Moves (p ∷ ps) a c
unfolding Moves brackets
Moves-cons p ps a b c e h rest =
    ap (λ o. elim o [ some next ↦ brackets (ps ++ rest) next | none ↦ none ]) e ∙ h rest

pub Moves-one : (p : Piece) (a b : List Bracket) → scan_piece p a ≡ some b → Moves (p ∷ []) a b
Moves-one p a b e = Moves-cons p [] a b b e (Moves-nil b)

-- A text without brackets.
abbrev pub NoBrackets : String → Type 0
NoBrackets s = (o : List Bracket) → scan_piece (text s) o ≡ some o

pub print_hex-Closed : (v : IntValue) → Closed (print_hex v)
print_hex-Closed v o = elim (Bool-cases (v.high == 0)) [
  | inl e ↦ rw e (Moves-cons (text "0x") _ o o o refl (Moves-one (hex v.low) o o refl))
  | inr e ↦ rw e (
      Moves-cons (text "0x") _ o o o refl
        (Moves-cons (hex v.high) _ o o o refl (Moves-one (hex_16 v.low) o o refl)))
]

pub print_bool-Closed : (b : Bool) → Closed (print_bool b)
print_bool-Closed true o = Moves-one (text "true") o o refl
print_bool-Closed false o = Moves-one (text "false") o o refl

module _ (iconv : Iconv) where
  pub print_type_string-Closed : (s : RawString) → Ensures Closed (tracer_print_type_string iconv s)
  unfolding tracer_print_type_string
  print_type_string-Closed s = Ensures->> Closed (tracer_convert_string_to_utf8 iconv s) _ (λ out.
      Ensures-ok Closed _ (λ o.
        Moves-cons (text "\"") _ o o o refl
          (Moves-cons (bytes out) _ o o o refl (Moves-one (text "\"") o o refl))))

  module _ (has_float : ℕ → Bool) where
    attr_value-Closed : (a : AttrValue) → Ensures Closed (print_attr_value iconv has_float a)
    unfolding print_attr_value
    attr_value-Closed (bool_attr b) = Ensures-ok Closed _ (print_bool-Closed b)
    attr_value-Closed (integer_attr u128 v) = Ensures-ok Closed _ (print_hex-Closed v)
    attr_value-Closed (integer_attr s128 v) = Ensures-ok Closed _ (print_hex-Closed v)
    attr_value-Closed (integer_attr u8 v) = Ensures-ok Closed _ (λ o. Moves-one _ o o refl)
    attr_value-Closed (integer_attr u16 v) = Ensures-ok Closed _ (λ o. Moves-one _ o o refl)
    attr_value-Closed (integer_attr u32 v) = Ensures-ok Closed _ (λ o. Moves-one _ o o refl)
    attr_value-Closed (integer_attr u64 v) = Ensures-ok Closed _ (λ o. Moves-one _ o o refl)
    attr_value-Closed (integer_attr s8 v) = Ensures-ok Closed _ (λ o. Moves-one _ o o refl)
    attr_value-Closed (integer_attr s16 v) = Ensures-ok Closed _ (λ o. Moves-one _ o o refl)
    attr_value-Closed (integer_attr s32 v) = Ensures-ok Closed _ (λ o. Moves-one _ o o refl)
    attr_value-Closed (integer_attr s64 v) = Ensures-ok Closed _ (λ o. Moves-one _ o o refl)
    attr_value-Closed (float_attr n bits) =
        Ensures-if Closed (has_float n) _ _
          (λ _. Ensures-ok Closed _ (λ o. Moves-one (float_g bits) o o refl))
          (Ensures-aborted Closed)
    attr_value-Closed (string_attr s) = print_type_string-Closed s
    attr_value-Closed unknown_attr = Ensures-aborted Closed

    module _ (separator : String) (plain : NoBrackets separator) where
      attr_type-Closed :
          (a : Attr) → Ensures Closed (tracer_print_attr_type iconv has_float separator a)
      unfolding tracer_print_attr_type
      attr_type-Closed a = Ensures->> Closed (tracer_convert_string_to_utf8 iconv a.key) _ (λ key.
          Ensures->>= Closed Closed (print_attr_value iconv has_float a.value) _
            (attr_value-Closed a.value)
            (λ value closed. Ensures-ok Closed _ (λ o.
              Moves-append
                (text "{ key"
                  ∷ text separator
                  ∷ text " \""
                  ∷ bytes key
                  ∷ text "\", value"
                  ∷ text separator
                  ∷ text " "
                  ∷ value)
                (text " }" ∷ []) o (brace ∷ o) o
                (Moves-cons _ _ o (brace ∷ o) (brace ∷ o) refl (
                  Moves-cons _ _ (brace ∷ o) (brace ∷ o) (brace ∷ o) (plain (brace ∷ o)) (
                    Moves-cons _ _ (brace ∷ o) (brace ∷ o) (brace ∷ o) refl (
                      Moves-cons _ _ (brace ∷ o) (brace ∷ o) (brace ∷ o) refl (
                        Moves-cons _ _ (brace ∷ o) (brace ∷ o) (brace ∷ o) refl (
                          Moves-cons _ _ (brace ∷ o) (brace ∷ o) (brace ∷ o) (plain (brace ∷ o)) (
                            Moves-cons _ _ (brace ∷ o) (brace ∷ o) (brace ∷ o) refl
                              (closed (brace ∷ o)))))))))
                (Moves-one (text " }") (brace ∷ o) o refl))))

      attrs-Closed :
          (comma : String) (attrs : List Attr)
          → NoBrackets comma
          → Ensures Closed (print_attrs iconv has_float separator comma attrs)
      unfolding print_attrs
      attrs-Closed comma [] h = Ensures-ok Closed _ Moves-nil
      attrs-Closed comma (a ∷ attrs) h =
          Ensures->>= Closed Closed (tracer_print_attr_type iconv has_float separator a) _
            (attr_type-Closed a)
            (λ first closed.
              Ensures->>= Closed Closed (print_attrs iconv has_float separator ", " attrs) _
                (attrs-Closed ", " attrs (λ o. refl))
                (λ rest more. Ensures-ok Closed _ (λ o.
                  Moves-append (text comma ∷ first) rest o o o
                    (Moves-cons (text comma) first o o o (h o) (closed o)) (more o))))

      -- Attributes leave no bracket open.
      pub print_attributes-Closed :
          (prefix : String) (attrs : List Attr)
          → NoBrackets prefix
          → Ensures Closed (print_attributes iconv has_float prefix separator attrs)
      unfolding print_attributes
      print_attributes-Closed prefix [] h = Ensures-ok Closed _ Moves-nil
      print_attributes-Closed prefix (a ∷ attrs) h =
          Ensures->>= Closed Closed (print_attrs iconv has_float separator " " (a ∷ attrs)) _
            (attrs-Closed " " (a ∷ attrs) (λ o. refl))
            (λ inner closed. Ensures-ok Closed _ (λ o.
              Moves-append (text prefix ∷ text separator ∷ text " [" ∷ inner) (text " ]" ∷ []) o
                (square ∷ o) o
                (Moves-cons _ _ o o (square ∷ o) (h o) (
                  Moves-cons _ _ o o (square ∷ o) (plain o)
                    (Moves-cons _ _ o (square ∷ o) (square ∷ o) refl (closed (square ∷ o)))))
                (Moves-one (text " ]") (square ∷ o) o refl)))
