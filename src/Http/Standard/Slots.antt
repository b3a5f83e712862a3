-- ===== src/Http/Standard/Slots.antt =====
-- core/http/context.go, core/http/context_fd.go: the parameters of the two contexts.
use fast_server.Base.{
  Option, none, some, ap₂, sym, ◌∙◌, ap, insert, length-set, lookup, inl, Bool-cases, Bytes, List,
  [], arith, if◌then◌else◌, inr, length, ltb, refl, ℕ, ◌∷◌, ◌≡◌, ◌≤◌, bytes_key,
}
use fast_server.Http.Request.{Request, or_empty}
use fast_server.Http.Context.{Context, find_param, new_context}
use fast_server.Http.Context
use fast_server.Http.Context.Params.{
  find_param-next, HasSlots, new_context-HasSlots, set_param-HasSlots,
}
use fast_server.Http.Standard.{StandardContext, acquire_context_for_conn, param, set_param}

-- Four slots, as in every context that the pool makes.
pub record HasFour (c : StandardContext) : Type 0 where
  pub keys : length c.param_keys ≡ 4
  pub values : length c.param_values ≡ 4

-- What both contexts read from their slots is the same for each key.
record Agrees (c : StandardContext) (d : Context) : Type 0 where
  four : HasFour c
  slots : HasSlots d
  count : c.param_count ≡ d.param_count
  reads :
      (j : Bytes)
      → find_param c.param_count 0 j c.param_keys c.param_values
        ≡ find_param d.param_count 0 j d.param_keys d.param_values
  overflow : c.param_overflow ≡ d.param_overflow

set_param-Agrees :
    (k v : Bytes) (c : StandardContext) (d : Context)
    → Agrees c d
    → Agrees (set_param k v c) (Context.set_param k v d)
unfolding set_param Context.set_param
set_param-Agrees k v c d w = elim (Bool-cases (ltb c.param_count 4)) [
  | inl room ↦ record {
    four = record {
      keys = ground (arith, room, w.four.keys, length-set c.param_keys c.param_count k);
      values = ground (arith, room, w.four.values, length-set c.param_values c.param_count v);
    };
    slots = set_param-HasSlots k v d w.slots;
    count = ground (arith, room, w.count);
    reads = λ j. ground (
      arith,
      room,
      w.count,
      w.reads j,
      find_param-next c.param_count j k v c.param_keys c.param_values
          (ground (arith, room, w.four.keys)) (omega (arith, w.four.keys, w.four.values)),
      find_param-next d.param_count j k v d.param_keys d.param_values
          (ground (arith, room, w.count, w.slots.keys))
          (omega (arith, w.slots.keys, w.slots.values)),
    );
    overflow = ground (arith, room, w.count, w.overflow);
  }
  | inr full ↦ record {
    four = record {
      keys = ground (arith, full, w.four.keys);
      values = ground (arith, full, w.four.values);
    };
    slots = set_param-HasSlots k v d w.slots;
    count = ground (arith, full, w.count);
    reads = λ j. ground (arith, full, w.count, w.reads j);
    overflow = ground (arith, full, w.count, w.overflow, ap (insert k v) w.overflow);
  }
]

-- One SetParam after the other.
abbrev pub set_params : List (Bytes × Bytes) → StandardContext → StandardContext
set_params [] c = c
set_params ((k, v) ∷ ps) c = set_params ps (set_param k v c)

abbrev pub set_fd_params : List (Bytes × Bytes) → Context → Context
set_fd_params [] d = d
set_fd_params ((k, v) ∷ ps) d = set_fd_params ps (Context.set_param k v d)

set_params-Agrees :
    (ps : List (Bytes × Bytes)) (c : StandardContext) (d : Context)
    → Agrees c d
    → Agrees (set_params ps c) (set_fd_params ps d)
set_params-Agrees [] c d w = w
set_params-Agrees ((k, v) ∷ ps) c d w =
    set_params-Agrees ps (set_param k v c) (Context.set_param k v d) (set_param-Agrees k v c d w)

-- The value of a slot, or of the overflow.
abbrev slot_or : Option Bytes → Bytes → Bytes
slot_or o b = elim o [ some v ↦ v | none ↦ b ]

up_to_four : (n : ℕ) → n ≤ 4 → (if ltb n 4 then n else 4) ≡ n
up_to_four n h = ground (arith, h)

param_lem :
    (key : Bytes) (c : StandardContext)
    → c.param_count ≤ 4
    → param key c
      ≡ slot_or
          (find_param c.param_count 0 key c.param_keys c.param_values)
          (or_empty (lookup key c.param_overflow))
unfolding param
param_lem key c h =
    ap
      (λ n.
        slot_or (find_param n 0 key c.param_keys c.param_values)
          (or_empty (lookup key c.param_overflow)))
      (up_to_four c.param_count h)

fd_param_lem :
    (key : Bytes) (d : Context)
    → d.param_count ≤ 4
    → Context.param key d
      ≡ slot_or
          (find_param d.param_count 0 key d.param_keys d.param_values)
          (or_empty (lookup key d.param_overflow))
unfolding Context.param
fd_param_lem key d h =
    ap
      (λ n.
        slot_or (find_param n 0 key d.param_keys d.param_values)
          (or_empty (lookup key d.param_overflow)))
      (up_to_four d.param_count h)

param-Agrees :
    (key : Bytes) (c : StandardContext) (d : Context)
    → Agrees c d
    → param key c ≡ Context.param key d
param-Agrees key c d w =
    param_lem key c (omega (arith, w.count, w.slots.count))
    ∙ ap₂ (λ o m. slot_or o (or_empty (lookup key m))) (w.reads key) w.overflow
    ∙ sym (fd_param_lem key d w.slots.count)

-- Whatever the pool gives, Param of the context that is acquired for a connection answers, after the
-- same calls of SetParam, as Param of a new context of the engine.
pub param-acquired :
    (conn : Bytes) (req : Request) (pooled : StandardContext) (fd : ℕ) (ps : List (Bytes × Bytes))
    (key : Bytes)
    → HasFour pooled
    → param key (set_params ps (acquire_context_for_conn conn req pooled))
      ≡ Context.param key (set_fd_params ps (new_context fd req))
unfolding find_param new_context
param-acquired conn req pooled fd ps key w =
    param-Agrees key (set_params ps (acquire_context_for_conn conn req pooled))
      (set_fd_params ps (new_context fd req))
      (set_params-Agrees ps (acquire_context_for_conn conn req pooled) (new_context fd req)
        (record {
          four = record { keys = w.keys; values = w.values };
          slots = new_context-HasSlots fd req;
          count = refl;
          reads = λ j. refl;
          overflow = refl;
        }))
