-- ===== src/Wire/Status.antt =====
-- internal/wire/status.go: the status vector of a server response, its parser and its fast path.
-- Rendering (`Error`, `appendMessage`) needs the generated message table and is left out.
pub mod Vector
pub mod Entries
pub mod Whole
use go_firebird_driver.Prelude.{
  ℕ, zero, suc, ◌+◌, Bool, true, false, not, ◌&&◌, ◌||◌, List, [], ◌∷◌, ◌++◌, Option, none, some,
  length, ◌==◌, ltb, if◌then◌else◌,
}
use go_firebird_driver.Prelude.Bytes.{Bytes, at, is_empty, codes}
use go_firebird_driver.Wire.Protocol.{
  isc_arg_end, isc_arg_gds, isc_arg_string, isc_arg_cstring, isc_arg_number, isc_arg_interpreted,
  isc_arg_warning, isc_arg_sql_state,
}
use go_firebird_driver.Wire.Reader.{
  ReadError, out_of_fuel, Reader, read_int32, read_string, peek_bytes, advance, pending,
}

-- An argument of a message: `any` in the source, a string or an int32 (its bit pattern).
pub data Param : Type 0 where
  text : Bytes → Param
  number : ℕ → Param

-- `GDSError`
pub record GdsError : Type 0 where
  pub code : ℕ
  pub sql_state : Bytes
  pub message : Bytes
  pub params : List Param

-- `StatusVector`
pub record StatusVector : Type 0 where
  pub errors : List GdsError
  pub warnings : List GdsError

abbrev pub empty_vector : StatusVector
empty_vector = record { errors = []; warnings = [] }

-- `sv.Errors[0].Code`, of a list that is not empty
abbrev first_code : List GdsError → Option ℕ
first_code [] = none
first_code (e ∷ es) = some e.code

-- `HasError`
unfoldable pub has_error : StatusVector → Bool
has_error sv = elim (first_code sv.errors) [ none ↦ false | some c ↦ not (c == 0) ]

-- `HasWarning`
pub has_warning : StatusVector → Bool
has_warning sv = ltb 0 (length sv.warnings)

-- `GDSCode`
pub gds_code : StatusVector → ℕ
gds_code sv = elim (first_code sv.errors) [ none ↦ 0 | some c ↦ if not (c == 0) then c else 0 ]

-- The entry that `current` points at: the last of `sv.Errors` or of `sv.Warnings`. In the source the
-- pointer is set right after its entry is appended, and again before any other is.
pub data Current : Type 0 where
  nil last_error last_warning : Current

-- The variables of `readStatusVectorSlow`.
pub record ParseState : Type 0 where
  pub sv : StatusVector
  pub current : Current
  pub is_warning : Bool

abbrev pub start : ParseState
start = record { sv = empty_vector; current = nil; is_warning = false }

-- A change to the last element, if there is one.
abbrev pub on_last {ℓ} : {A : Type ℓ} → (A → A) → List A → List A
on_last f [] = []
on_last f (x ∷ []) = f x ∷ []
on_last f (x ∷ y ∷ xs) = x ∷ on_last f (y ∷ xs)

abbrev new_entry : ℕ → GdsError
new_entry code = record { code = code; sql_state = []; message = []; params = [] }

-- `case IscArgGds`, after its code is read
pub on_gds : ℕ → ParseState → ParseState
on_gds code st =
    if not (code == 0)
    then record {
      sv = record { errors = st.sv.errors ++ new_entry code ∷ []; warnings = st.sv.warnings };
      current = last_error;
      is_warning = false;
    }
    else record st { current = nil; is_warning = false }

-- `case IscArgWarning`
pub on_warning : ℕ → ParseState → ParseState
on_warning code st =
    if not (code == 0)
    then record {
      sv = record { errors = st.sv.errors; warnings = st.sv.warnings ++ new_entry code ∷ [] };
      current = last_warning;
      is_warning = true;
    }
    else record st { current = nil; is_warning = true }

-- An assignment through `current`.
abbrev through : (GdsError → GdsError) → Current → StatusVector → StatusVector
through f nil sv = sv
through f last_error sv = record { errors = on_last f sv.errors; warnings = sv.warnings }
through f last_warning sv = record { errors = sv.errors; warnings = on_last f sv.warnings }

-- `current.Message = s`, or `+= ": " + s`; and the parameter
abbrev pub add_text : Bytes → GdsError → GdsError
add_text s e = record e {
  message = if is_empty e.message then s else e.message ++ (codes ": " ++ s);
  params = e.params ++ text s ∷ [];
}

abbrev pub add_number : ℕ → GdsError → GdsError
add_number n e = record e { params = e.params ++ number n ∷ [] }

abbrev pub set_state : Bytes → GdsError → GdsError
set_state s e = record e { sql_state = s }

-- `case IscArgString, IscArgCstring, IscArgInterpreted`
pub on_text : Bytes → ParseState → ParseState
on_text s st = record st { sv = through (add_text s) st.current st.sv }

-- `case IscArgNumber`
pub on_number : ℕ → ParseState → ParseState
on_number n st = record st { sv = through (add_number n) st.current st.sv }

-- `case IscArgSQLState`: the last entry of the list that `isWarning` selects, whatever `current` is.
pub on_sql_state : Bytes → ParseState → ParseState
on_sql_state s st =
    let which = if st.is_warning then last_warning else last_error in
    record st { sv = through (set_state s) which st.sv }

-- What a tag asks the parser to do next.
pub data Action : Type 0 where
  finish gds warning textual numeric state unknown : Action

pub action : ℕ → Action
action tag =
    if tag == isc_arg_end
    then finish
    else if tag == isc_arg_gds
    then gds
    else if tag == isc_arg_warning
    then warning
    else if tag == isc_arg_string || (tag == isc_arg_cstring || tag == isc_arg_interpreted)
    then textual
    else if tag == isc_arg_number
    then numeric
    else if tag == isc_arg_sql_state
    then state
    else unknown

-- The value that follows a tag, and the change that it makes; the second part is the reader behind it.
pub consume : Action → Reader → ParseState → ParseState × Reader
consume finish r st = (st, r)
consume gds r st = let (v, r') = read_int32 r in (on_gds v st, r')
consume warning r st = let (v, r') = read_int32 r in (on_warning v st, r')
consume textual r st = let (s, r') = read_string r in (on_text s st, r')
consume numeric r st = let (v, r') = read_int32 r in (on_number v st, r')
consume state r st = let (s, r') = read_string r in (on_sql_state s st, r')
consume unknown r st = let (v, r') = read_int32 r in (st, r')

abbrev is_finish : Action → Bool
is_finish finish = true
is_finish _ = false

-- The loop of `readStatusVectorSlow`, with fuel: on a read error the vector so far is returned.
pub parse_loop : ℕ → Reader → ParseState → StatusVector × Reader
parse_loop zero r st = (st.sv, record r { err = some out_of_fuel })
parse_loop (suc fuel) r st =
    let (tag, r') = read_int32 r in
    let (st', r'') = consume (action tag) r' st in
    let later = parse_loop fuel r'' st' in
    elim r'.err [
      | some e ↦ (st.sv, r')
      | none ↦
          if is_finish (action tag)
          then (st.sv, r')
          else elim r''.err [ some e ↦ (st.sv, r'') | none ↦ later ]
    ]

-- `readStatusVectorSlow`: each round takes four bytes at least, so the bytes pending bound the rounds.
pub read_status_vector_slow : Reader → StatusVector × Reader
read_status_vector_slow r = parse_loop (suc (length (pending r))) r start

-- The twelve bytes of a success: isc_arg_gds, 0, isc_arg_end.
pub is_success : Bytes → Bool
is_success p =
    length p == 12
    && at p 0 == 0
    && at p 1 == 0
    && at p 2 == 0
    && at p 3 == 1
    && at p 4 == 0
    && at p 5 == 0
    && at p 6 == 0
    && at p 7 == 0
    && at p 8 == 0
    && at p 9 == 0
    && at p 10 == 0
    && at p 11 == 0

-- `readStatusVector`
pub read_status_vector : Reader → StatusVector × Reader
read_status_vector r =
    let (peek, r') = peek_bytes r 12 in
    if is_success peek then (empty_vector, advance r' 12) else read_status_vector_slow r'
