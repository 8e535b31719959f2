-- ===== src/Wire/Status/Entries.antt =====
-- What a server means by a status vector, a list of errors and warnings with their arguments, and what the
-- arguments do to the parser.
use go_firebird_driver.Prelude.{
  ℕ, ◌≡◌, ◌≢◌, refl, ◌∙◌, ap, Bool, true, false, List, [], ◌∷◌, ◌++◌, arith, append-nil,
  append_assoc, All, if◌then◌else◌, map, All-append, Bool-cases, inl, inr,
}
use go_firebird_driver.Prelude.Bytes.{Bytes, is_empty, codes}
use go_firebird_driver.Wire.Protocol.{isc_arg_string}
use go_firebird_driver.Wire.Status.{
  Param, text, number, GdsError, StatusVector, ParseState, last_error, last_warning, on_last,
  add_text, add_number, set_state, on_gds, on_warning, on_text, on_number, on_sql_state,
}
use go_firebird_driver.Wire.Status.Vector.{Arg, IsSendable, effect, effects}

-- An error or a warning as the server means it; no state is sent where `state` is empty.
pub record Entry : Type 0 where
  pub is_warning : Bool
  pub code : ℕ
  pub params : List Param
  pub state : Bytes

abbrev pub param_arg : Param → Arg
param_arg (text s) = Arg.text isc_arg_string s
param_arg (number n) = Arg.number n

abbrev pub head_arg : Entry → Arg
head_arg e = if e.is_warning then Arg.warning e.code else Arg.gds e.code

abbrev pub state_args : Bytes → List Arg
state_args s = if is_empty s then [] else Arg.sql_state s ∷ []

unfoldable pub entry_args : Entry → List Arg
entry_args e = head_arg e ∷ (map param_arg e.params ++ state_args e.state)

unfoldable pub entries_args : List Entry → List Arg
entries_args [] = []
entries_args (e ∷ es) = entry_args e ++ entries_args es

-- The texts among the arguments, with ": " between them, behind `m`.
abbrev pub joined : Bytes → List Param → Bytes
joined m [] = m
joined m (text s ∷ ps) = joined (if is_empty m then s else m ++ (codes ": " ++ s)) ps
joined m (number n ∷ ps) = joined m ps

abbrev pub reported : Entry → GdsError
reported e = record {
  code = e.code;
  sql_state = e.state;
  message = joined [] e.params;
  params = e.params;
}

abbrev pub errors_in : List Entry → List GdsError
errors_in [] = []
errors_in (e ∷ es) = let later = errors_in es in if e.is_warning then later else reported e ∷ later

abbrev pub warnings_in : List Entry → List GdsError
warnings_in [] = []
warnings_in (e ∷ es) =
    let later = warnings_in es in if e.is_warning then reported e ∷ later else later

-- An entry has a code that is not zero, and all its parts can be sent.
abbrev pub IsEntry : Entry → Type 0
IsEntry e = (e.code ≢ 0) × All IsSendable (entry_args e)

effects-append :
    (xs ys : List Arg) (st : ParseState) → effects (xs ++ ys) st ≡ effects ys (effects xs st)
unfolding effects
effects-append [] ys st = refl
effects-append (x ∷ xs) ys st = effects-append xs ys (effect x st)

on_last-concat {ℓ} :
    {A : Type ℓ} (f : A → A) (xs : List A) (x : A) → on_last f (xs ++ x ∷ []) ≡ xs ++ f x ∷ []
on_last-concat f [] x = refl
on_last-concat f (y ∷ []) x = refl
on_last-concat f (y ∷ z ∷ xs) x = ap (◌∷◌ y) (on_last-concat f (z ∷ xs) x)

-- The parser right after an error's code, or a warning's, and some of its arguments.
abbrev in_error : List GdsError → List GdsError → GdsError → ParseState
in_error es ws x = record {
  sv = record { errors = es ++ x ∷ []; warnings = ws };
  current = last_error;
  is_warning = false;
}

abbrev in_warning : List GdsError → List GdsError → GdsError → ParseState
in_warning es ws x = record {
  sv = record { errors = es; warnings = ws ++ x ∷ [] };
  current = last_warning;
  is_warning = true;
}

abbrev in_entry : Bool → List GdsError → List GdsError → GdsError → ParseState
in_entry true es ws x = in_warning es ws x
in_entry false es ws x = in_error es ws x

abbrev add : Param → GdsError → GdsError
add (text s) = add_text s
add (number n) = add_number n

abbrev adds : List Param → GdsError → GdsError
adds [] x = x
adds (p ∷ ps) x = adds ps (add p x)

effect-in_entry :
    (p : Param) (w : Bool) (es ws : List GdsError) (x : GdsError)
    → effect (param_arg p) (in_entry w es ws x) ≡ in_entry w es ws (add p x)
unfolding on_text on_number
effect-in_entry (text s) true es ws x = rw (on_last-concat (add_text s) ws x)
effect-in_entry (text s) false es ws x = rw (on_last-concat (add_text s) es x)
effect-in_entry (number s) true es ws x = rw (on_last-concat (add_number s) ws x)
effect-in_entry (number s) false es ws x = rw (on_last-concat (add_number s) es x)

effects-params :
    (ps : List Param) (w : Bool) (es ws : List GdsError) (x : GdsError)
    → effects (map param_arg ps) (in_entry w es ws x) ≡ in_entry w es ws (adds ps x)
unfolding effects
effects-params [] w es ws x = refl
effects-params (p ∷ ps) w es ws x =
    ap (effects (map param_arg ps)) (effect-in_entry p w es ws x)
    ∙ effects-params ps w es ws (add p x)

effects-state :
    (s : Bytes) (w : Bool) (es ws : List GdsError) (x : GdsError)
    → x.sql_state ≡ []
    → effects (state_args s) (in_entry w es ws x) ≡ in_entry w es ws (set_state s x)
unfolding effects on_sql_state
effects-state [] true es ws x e = λ i. in_warning es ws (record x { sql_state = e i })
effects-state [] false es ws x e = λ i. in_error es ws (record x { sql_state = e i })
effects-state (b ∷ s) true es ws x e = rw (on_last-concat (set_state (b ∷ s)) ws x)
effects-state (b ∷ s) false es ws x e = rw (on_last-concat (set_state (b ∷ s)) es x)

adds_lem :
    (ps : List Param) (x : GdsError)
    → adds ps x ≡ record x { message = joined x.message ps; params = x.params ++ ps }
adds_lem [] x = rw append-nil
adds_lem (text s ∷ ps) x = adds_lem ps (add_text s x) ∙ rw append_assoc
adds_lem (number n ∷ ps) x = adds_lem ps (add_number n x) ∙ rw append_assoc

-- The vector with one more entry.
abbrev with_entry : Entry → StatusVector → StatusVector
with_entry e sv =
    if e.is_warning
    then record { errors = sv.errors; warnings = sv.warnings ++ reported e ∷ [] }
    else record { errors = sv.errors ++ reported e ∷ []; warnings = sv.warnings }

abbrev bare : ℕ → GdsError
bare code = record { code = code; sql_state = []; message = []; params = [] }

head_in_entry :
    (e : Entry) (st : ParseState)
    → e.code ≢ 0
    → effect (head_arg e) st ≡ in_entry e.is_warning st.sv.errors st.sv.warnings (bare e.code)
unfolding on_gds on_warning
head_in_entry e st h = elim (Bool-cases e.is_warning) [
  | inl w ↦ rw w (ground arith)
  | inr w ↦ rw w (ground arith)
]

in_entry-sv :
    (e : Entry) (sv : StatusVector)
    → (in_entry e.is_warning sv.errors sv.warnings (reported e)).sv ≡ with_entry e sv
in_entry-sv e sv = elim (Bool-cases e.is_warning) [ inl w ↦ rw w refl | inr w ↦ rw w refl ]

entry_effects :
    (e : Entry) (st : ParseState) → e.code ≢ 0 → (effects (entry_args e) st).sv ≡ with_entry e st.sv
unfolding effects entry_args
entry_effects e st h =
    let w = e.is_warning in
    let es = st.sv.errors in
    let ws = st.sv.warnings in
    let x = adds e.params (bare e.code) in
    let a = adds_lem e.params (bare e.code) in
    let all : effects (map param_arg e.params ++ state_args e.state)
          (in_entry w es ws (bare e.code))
        ≡ in_entry w es ws (set_state e.state x) =
      effects-append (map param_arg e.params) (state_args e.state) (in_entry w es ws (bare e.code))
      ∙ ap (effects (state_args e.state)) (effects-params e.params w es ws (bare e.code))
      ∙ effects-state e.state w es ws x (ap (λ y. y.sql_state) a) in
    ap (λ z. (effects (map param_arg e.params ++ state_args e.state) z).sv) (head_in_entry e st h)
    ∙ ap (λ z. z.sv) all
    ∙ ap (λ y. (in_entry w es ws (set_state e.state y)).sv) a
    ∙ in_entry-sv e st.sv

pub entries_effects :
    (es : List Entry) (st : ParseState)
    → All IsEntry es
    → (effects (entries_args es) st).sv ≡ record {
      errors = st.sv.errors ++ errors_in es;
      warnings = st.sv.warnings ++ warnings_in es;
    }
unfolding entries_args
entries_effects [] st h = unfold effects in rw (append-nil, append-nil)
entries_effects (e ∷ es) st h =
    let st' = effects (entry_args e) st in
    let now = entry_effects e st h.0.0 in
    ap (λ z. z.sv) (effects-append (entry_args e) (entries_args es) st)
    ∙ entries_effects es st' h.1
    ∙ ap
        (λ v. record { errors = v.errors ++ errors_in es; warnings = v.warnings ++ warnings_in es })
        now
    ∙ elim (Bool-cases e.is_warning) [
      | inl w ↦ rw w (rw append_assoc)
      | inr w ↦ rw w (rw append_assoc)
    ]

pub entries_args-IsSendable : (es : List Entry) → All IsEntry es → All IsSendable (entries_args es)
unfolding entries_args
entries_args-IsSendable [] h = tt
entries_args-IsSendable (e ∷ es) h =
    All-append IsSendable (entry_args e) (entries_args es) h.0.1 (entries_args-IsSendable es h.1)
