-- ===== src/Rs232/Scanf.antt =====
-- The interface of the C library's `sscanf`, whose numbers the parsers take as they come, and the
-- assignment of what it converts to the fields of a response.
use es_inverter.Base.{ℕ, List, [], ◌∷◌, Option, Bytes, length, ℤ, map}
use es_inverter.Rs232.Memory.{Outcome, done, ◌>>=◌, c_string}

-- The conversions of the formats: `%f`, `%d`, `%lu` and `%ld` to a word, `%lx`, `%hhd` to a byte.
-- A number is the width, as in `%5f`.
pub data Conversion : Type 0 where
  real : Option ℕ → Conversion
  decimal : Option ℕ → Conversion
  word hex byte : Conversion

pub data Value (Float : Type 0) : Type 0 where
  float : Float → Value Float
  int : ℤ → Value Float
  unsigned : ℕ → Value Float

-- A value is of the kind that its conversion stores.
abbrev pub Stores : {Float : Type 0} → Conversion → Value Float → Type 0
Stores (real _) (float _) = Unit
Stores (decimal _) (int _) = Unit
Stores word (unsigned n) = Unit
Stores hex (unsigned n) = Unit
Stores byte (unsigned n) = Unit
Stores _ _ = ⊥

-- The conversions succeed from the first on, up to some point.
abbrev pub Converts : {Float : Type 0} → List Conversion → List (Value Float) → Type 0
Converts cs [] = Unit
Converts [] (v ∷ vs) = ⊥
Converts (c ∷ cs) (v ∷ vs) = Stores c v × Converts cs vs

-- `sscanf` on a string and the conversions of a format: the values stored, in order.
pub record Scanf : Type 1 where
  pub Float : Type 0
  pub sscanf : Bytes → List Conversion → List (Value Float)
  pub sscanf-Converts : (s : Bytes) (cs : List Conversion) → Converts cs (sscanf s cs)

-- A conversion with the field that it fills.
abbrev pub Slot : Type 0 → Type 0 → Type 0
Slot Float R = Conversion × (Value Float → R → R)

unfoldable pub assign : {Float R : Type 0} → List (Slot Float R) → List (Value Float) → R → R
assign [] vs r = r
assign (s ∷ ss) [] r = r
assign ((c, put) ∷ ss) (v ∷ vs) r = assign ss vs (put v r)

module _ {Float R : Type 0} where
  abbrev pub to_float : Option ℕ → (Float → R → R) → Slot Float R
  to_float width put = (real width, λ v r. elim v [ float x ↦ put x r | _ ↦ r ])

  abbrev pub to_int : Option ℕ → (ℤ → R → R) → Slot Float R
  to_int width put = (decimal width, λ v r. elim v [ int x ↦ put x r | _ ↦ r ])

  abbrev pub to_unsigned : Conversion → (ℕ → R → R) → Slot Float R
  to_unsigned c put = (c, λ v r. elim v [ unsigned x ↦ put x r | _ ↦ r ])

module _ (libc : Scanf) where
  -- The call: the number of conversions, and the response with their values.
  unfoldable pub scan : {R : Type 0} → Bytes → List (Slot libc.Float R) → R → Outcome (ℕ × R)
  unfolding assign c_string
  scan mem slots r = do
    s ← c_string mem
    let vs = libc.sscanf s (map (λ t. t.0) slots)
    done (length vs, assign slots vs r)
