-- ===== src/Sse/Event/Format.antt =====
-- core/sse/broker.go: an event stream read back.
use fast_server.Base.{
  Bool, ◌&&◌, All-append, Bool-cases, Bytes, Lacks, List, [], append-nil, append_assoc, arith,
  bytes_eq, codes, drop, drop_past, false, if◌then◌else◌, index_byte, index_byte-append, inl, inr,
  length, ltb, none, not, refl, some, split, split-append, sym, take, take-append, ℕ, ◌++◌, ◌+◌,
  ◌==◌, ◌∷◌, ◌≡◌, ◌≢◌, ◌≤◌, bytes_key,
}
use fast_server.Http.Context.Digits.{
  Lacks-IsDigit, append_int-decimal, decimal, decimal-IsDigit, value,
}
use fast_server.Http.Context.Framing.{Lacks-decimal}
use fast_server.Sse.Event.{Event, field, format_event, is_empty, lf}

-- A reader of event streams, as the standard of server-sent events has it, but for zero bytes in
-- identifiers: a line is a field name, a
-- colon, perhaps a space, and a value; an empty line ends the event.
abbrev no_space : Bytes → Bytes
no_space [] = []
no_space (b ∷ s) = if b == b' ' then s else b ∷ s

pub set_field : Bytes → Bytes → Event → Event
set_field name v e =
    if bytes_eq name (codes "id")
    then record e { id = v }
    else if bytes_eq name (codes "event")
    then record e { event = v }
    else if bytes_eq name (codes "retry")
    then record e { retry = value v }
    else if bytes_eq name (codes "data")
    then record e { data_text = v }
    else e

abbrev read_line : Bytes → Event → Event
read_line line e = elim (index_byte b':' line) [
  | none ↦ set_field line [] e
  | some i ↦ set_field (take i line) (no_space (drop (i + 1) line)) e
]

abbrev pub nothing : Event
nothing = record { id = []; event = []; data_text = []; retry = 0 }

-- The events in some lines; what has no data is no event. (An identifier counts for its own event only.)
pub read_lines : List Bytes → Event → List Event
read_lines [] e = []
read_lines ([] ∷ lines) e =
    let rest = read_lines lines nothing in if is_empty e.data_text then rest else e ∷ rest
read_lines ((b ∷ s) ∷ lines) e = read_lines lines (read_line (b ∷ s) e)

abbrev pub cr : ℕ
cr = 13

-- A carriage return ends a line, too, with the line feed behind it if there is one: all line ends as line
-- feeds, where `after_cr` says what came before.
pub line_feeds : Bool → Bytes → Bytes
line_feeds after_cr [] = []
line_feeds after_cr (b ∷ s) =
    let rest = line_feeds (b == cr) s in
    if b == cr then lf ∷ rest else if after_cr && b == lf then rest else b ∷ rest

pub line_feeds-Lacks : (s : Bytes) → Lacks cr s → line_feeds false s ≡ s
unfolding line_feeds
line_feeds-Lacks [] w = refl
line_feeds-Lacks (b ∷ s) w = ground (arith, w.0, line_feeds-Lacks s w.1)

-- The events of a text whose lines end with line feeds.
abbrev pub read_text : Bytes → List Event
read_text s = read_lines (split lf s) nothing

abbrev pub read_events : Bytes → List Event
read_events s = read_text (line_feeds false s)

pub read_text-none : read_text [] ≡ []
unfolding read_lines split
read_text-none = refl

-- A line of `FormatEvent`.
abbrev line : Bytes → Bytes → Bytes
line name v = name ++ (b':' ∷ b' ' ∷ v)

read_line-line :
    (name v : Bytes) (e : Event) → Lacks b':' name → read_line (line name v) e ≡ set_field name v e
read_line-line name v e w = ground (
  arith,
  index_byte-append b':' name (b' ' ∷ v) w,
  take-append (length name) name (b':' ∷ b' ' ∷ v) refl,
  drop_past name b':' (b' ' ∷ v),
)

-- The lines that a field adds.
abbrev field_lines : Bytes → Bytes → Bytes
field_lines name v = if is_empty v then [] else line name v ++ (lf ∷ [])

field_lem : (name v buf : Bytes) → field name v buf ≡ buf ++ field_lines name v
unfolding field
field_lem name [] buf = sym (append-nil buf)
field_lem name (b ∷ v) buf = simp append_assoc

read_field :
    (b : ℕ) (name v rest : Bytes) (e : Event)
    → Lacks lf (b ∷ name)
    → Lacks b':' (b ∷ name)
    → Lacks lf v
    → read_lines (split lf (field_lines (b ∷ name) v ++ rest)) e
      ≡ read_lines (split lf rest) (if is_empty v then e else set_field (b ∷ name) v e)
unfolding read_lines
read_field b name [] rest e w k h = refl
read_field b name (c ∷ v) rest e w k h = cc (
  append_assoc (line (b ∷ name) (c ∷ v)) (lf ∷ []) rest,
  split-append lf (line (b ∷ name) (c ∷ v)) rest
      (All-append (λ b. b ≢ lf) (b ∷ name) (b':' ∷ b' ' ∷ c ∷ v) w (omega arith, (omega arith, h))),
  read_line-line (b ∷ name) (c ∷ v) e k,
)

-- What each field of `FormatEvent` sets, where the event has none yet.
abbrev if_any : Bytes → Bytes → Event → Event
if_any name v e = if is_empty v then e else set_field name v e

if_any-id : (v : Bytes) (e : Event) → e.id ≡ [] → if_any (codes "id") v e ≡ record e { id = v }
unfolding set_field bytes_eq
if_any-id [] e h = ground (arith, h)
if_any-id (b ∷ v) e h = refl

if_any-event :
    (v : Bytes) (e : Event) → e.event ≡ [] → if_any (codes "event") v e ≡ record e { event = v }
unfolding set_field bytes_eq
if_any-event [] e h = ground (arith, h)
if_any-event (b ∷ v) e h = refl

if_any-data :
    (v : Bytes) (e : Event)
    → e.data_text ≡ []
    → if_any (codes "data") v e ≡ record e { data_text = v }
unfolding set_field bytes_eq
if_any-data [] e h = ground (arith, h)
if_any-data (b ∷ v) e h = refl

abbrev retry_text : ℕ → Bytes
retry_text r = if ltb 0 r then decimal r else []

not_empty : (s : Bytes) (n : ℕ) → value s ≡ n → 1 ≤ n → is_empty s ≡ false
not_empty [] n e h = absurd (omega (arith, e))
not_empty (b ∷ s) n e h = refl

is_empty-retry_text : (r : ℕ) → is_empty (retry_text r) ≡ not (ltb 0 r)
is_empty-retry_text r = elim (Bool-cases (ltb 0 r)) [
  | inl some' ↦
      rw some' (not_empty (decimal r) r (append_int-decimal [] r).1 (ground (arith, some')))
  | inr none' ↦ rw none' refl
]

if_any-retry :
    (r : ℕ) (e : Event)
    → e.retry ≡ 0
    → if_any (codes "retry") (retry_text r) e ≡ record e { retry = r }
unfolding set_field bytes_eq
if_any-retry r e h = ground (arith, h, is_empty-retry_text r, (append_int-decimal [] r).1)

Lacks-retry_text : (r : ℕ) → Lacks lf (retry_text r)
Lacks-retry_text r = elim (Bool-cases (ltb 0 r)) [
  | inl some' ↦ rw some' (Lacks-decimal r)
  | inr none' ↦ rw none' tt
]

read_end :
    (e : Event) (s : Bytes)
    → e.data_text ≢ []
    → read_lines (split lf (lf ∷ s)) e ≡ e ∷ read_lines (split lf s) nothing
unfolding read_lines
read_end e s n =
    let f : is_empty e.data_text ≡ false = ground (arith, n) in cc (split-append lf [] s tt, f)

abbrev pub OneLine : Bytes → Type 0
OneLine s = Lacks lf s × Lacks cr s

-- An event with one line for each field, with data, and without a zero byte in its identifier.
abbrev pub IsPlain : Event → Type 0
IsPlain e = OneLine e.id × Lacks 0 e.id × OneLine e.event × OneLine e.data_text × (e.data_text ≢ [])

Lacks-field_lines : (name v : Bytes) → Lacks cr name → Lacks cr v → Lacks cr (field_lines name v)
Lacks-field_lines name [] n w = tt
Lacks-field_lines name (b ∷ v) n w =
    All-append (λ b. b ≢ cr) (line name (b ∷ v)) (lf ∷ [])
      (All-append (λ b. b ≢ cr) name (b':' ∷ b' ' ∷ b ∷ v) n (omega arith, (omega arith, w)))
      (omega arith)

Lacks-cr_retry_text : (r : ℕ) → Lacks cr (retry_text r)
Lacks-cr_retry_text r = elim (Bool-cases (ltb 0 r)) [
  | inl some' ↦ rw some' (Lacks-IsDigit cr (decimal r) (omega arith) (decimal-IsDigit r))
  | inr none' ↦ rw none' tt
]

Lacks-field :
    (name v buf : Bytes) → Lacks cr name → Lacks cr v → Lacks cr buf → Lacks cr (field name v buf)
Lacks-field name v buf n w k =
    rw (field_lem name v buf)
      (All-append (λ b. b ≢ cr) buf (field_lines name v) k (Lacks-field_lines name v n w))

-- The text of a plain event has no carriage return.
pub Lacks-format_event : (e : Event) → IsPlain e → Lacks cr (format_event e)
unfolding format_event
Lacks-format_event e (w, z, v, u, n) =
    let with_id = field (codes "id") e.id [] in
    let with_event = field (codes "event") e.event with_id in
    let with_retry = field (codes "retry") (retry_text e.retry) with_event in
    All-append (λ b. b ≢ cr) (field (codes "data") e.data_text with_retry) (lf ∷ [])
      (Lacks-field (codes "data") e.data_text with_retry (omega arith) u.1 (
        Lacks-field (codes "retry") (retry_text e.retry) with_event (omega arith)
          (Lacks-cr_retry_text e.retry)
          (Lacks-field (codes "event") e.event with_id (omega arith) v.1
            (Lacks-field (codes "id") e.id [] (omega arith) w.1 tt))))
      (omega arith)

-- The text of an event reads back as the event, whatever follows.
pub read_text-format_event :
    (e : Event) (s : Bytes) → IsPlain e → read_text (format_event e ++ s) ≡ e ∷ read_text s
unfolding format_event
read_text-format_event e s ((w, _), z, (v, _), (u, _), n) =
    let tail = lf ∷ s in
    let f4 = field_lines (codes "data") e.data_text ++ tail in
    let f3 = field_lines (codes "retry") (retry_text e.retry) ++ f4 in
    let f2 = field_lines (codes "event") e.event ++ f3 in
    let all : format_event e ++ s ≡ field_lines (codes "id") e.id ++ f2 =
      simp (field_lem, append_assoc) in
    cc (
      all,
      read_field b'i' (codes "d") e.id f2 nothing (omega arith) (omega arith) w,
      if_any-id e.id nothing refl,
      read_field b'e' (codes "vent") e.event f3 (record nothing { id = e.id }) (omega arith)
          (omega arith) v,
      if_any-event e.event (record nothing { id = e.id }) refl,
      read_field b'r' (codes "etry") (retry_text e.retry) f4
          (record e { data_text = []; retry = 0 }) (omega arith) (omega arith)
          (Lacks-retry_text e.retry),
      if_any-retry e.retry (record e { data_text = []; retry = 0 }) refl,
      read_field b'd' (codes "ata") e.data_text tail (record e { data_text = [] }) (omega arith)
          (omega arith) u,
      if_any-data e.data_text (record e { data_text = [] }) refl,
      read_end e s n,
    )
