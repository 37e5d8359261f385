-- ===== src/Ml/Context/Window.antt =====
-- ml/context_manager.py and ml/stream_buffer.py: a window holds the most recent of all the events.
use anp_edge_swarm.Base.{
  ℕ, zero, suc, ◌+◌, ◌-◌, ◌<◌, ◌≤◌, ltb, String, ◌≡◌, ◌∙◌, refl, sym, ap, subst, Option, List, [],
  ◌∷◌, ◌++◌, length, length-append, length-drop, last_n, drop, Bool-cases, inl, inr, arith,
}
use mathlib.Core.List.{append-nil, append_assoc}
use anp_edge_swarm.Base.Json.{Json}
use anp_edge_swarm.Ml.Context.{
  Event, Context, add_context, set_global_goal, add_local_task, complete_task, add_reading,
  with_task, with_result,
}

drop-none : {A : Type 0} (n : ℕ) → drop {A = A} n [] ≡ []
drop-none zero = refl
drop-none (suc n) = refl

drop-drop : {A : Type 0} (a b : ℕ) (xs : List A) → drop a (drop b xs) ≡ drop (b + a) xs
drop-drop a zero xs = let same : a ≡ 0 + a = omega arith in ap (λ n. drop n xs) same
drop-drop a (suc b) [] = drop-none a ∙ sym (drop-none (suc b + a))
drop-drop a (suc b) (x ∷ xs) =
    let same : suc (b + a) ≡ suc b + a = omega arith in
    drop-drop a b xs ∙ ap (λ n. drop n (x ∷ xs)) same

drop-append :
    {A : Type 0} (b : ℕ) (xs ys : List A) → b ≤ length xs → drop b (xs ++ ys) ≡ drop b xs ++ ys
drop-append zero xs ys h = refl
drop-append (suc b) [] ys h = absurd (omega (arith, h))
drop-append (suc b) (x ∷ xs) ys h = drop-append b xs ys (omega (arith, h))

last_n-pos : {A : Type 0} (n : ℕ) (xs : List A) → 0 < n → last_n n xs ≡ drop (length xs - n) xs
unfolding last_n
last_n-pos n xs h = ground (arith, h)

-- A window of all the elements so far, and the next element.
last_n-step :
    {A : Type 0} (n : ℕ) (xs : List A) (x : A)
    → 0 < n
    → last_n n (last_n n xs ++ x ∷ []) ≡ last_n n (xs ++ x ∷ [])
last_n-step n xs x pos =
    let b = length xs - n in
    let longer = xs ++ x ∷ [] in
    let more = length-append xs (x ∷ []) in
    let rest = length-drop b longer in
    let shift : b + (length (drop b longer) - n) ≡ length longer - n = omega (arith, more, rest) in
    ap (λ w. last_n n (w ++ x ∷ [])) (last_n-pos n xs pos)
    ∙ ap (last_n n) (sym (drop-append b xs (x ∷ []) (omega arith)))
    ∙ last_n-pos n (drop b longer) pos
    ∙ drop-drop (length (drop b longer) - n) b longer
    ∙ ap (λ m. drop m longer) shift
    ∙ sym (last_n-pos n longer pos)

last_n-short : {A : Type 0} (n : ℕ) (xs : List A) → 0 < n → length xs ≤ n → last_n n xs ≡ xs
last_n-short n xs pos h =
    let none_off : length xs - n ≡ 0 = omega (arith, h) in
    last_n-pos n xs pos ∙ ap (λ m. drop m xs) none_off

-- The calls that write to the context.
pub data Call : Type 0 where
  goal : (now : ℕ) (text : String) → Call
  start : (now : ℕ) (task_id task_type node_id : String) → Call
  complete : (now : ℕ) (task_id : String) (result : Json) → Call

module _ (short_node short_task : String → String) (status : Json → Option Json) where
  abbrev pub apply : Call → Context → Context
  apply (Call.goal now text) c = set_global_goal now text c
  apply (Call.start now task_id task_type node_id) c =
      add_local_task now short_node task_id task_type node_id c
  apply (Call.complete now task_id result) c = complete_task now short_task status task_id result c

  abbrev pub event_of : Call → ℕ × Event
  event_of (Call.goal now text) = (now, Event.goal_set text)
  event_of (Call.start now task_id task_type node_id) =
      (now, Event.task_start task_type (short_node node_id))
  event_of (Call.complete now task_id result) =
      (now, Event.task_complete (short_task task_id) (status result))

  abbrev pub apply_all : List Call → Context → Context
  apply_all [] c = c
  apply_all (k ∷ ks) c = apply_all ks (apply k c)

  abbrev pub events_of : List Call → List (ℕ × Event)
  events_of [] = []
  events_of (k ∷ ks) = event_of k ∷ events_of ks

  -- `c` holds the most recent of the events `all`.
  abbrev pub Holds : List (ℕ × Event) → Context → Type 0
  Holds all c = c.context_window ≡ last_n c.max_context all

  add_context-Holds :
      (all : List (ℕ × Event)) (now : ℕ) (e : Event) (c : Context)
      → 0 < c.max_context
      → Holds all c
      → Holds (all ++ (now, e) ∷ []) (add_context now e c)
  unfolding add_context
  add_context-Holds all now e c pos h =
      let window = c.context_window ++ (now, e) ∷ [] in
      let recent : last_n c.max_context window ≡ last_n c.max_context (all ++ (now, e) ∷ []) =
        ap (λ w. last_n c.max_context (w ++ (now, e) ∷ [])) h
        ∙ last_n-step c.max_context all (now, e) pos in
      elim (Bool-cases (ltb c.max_context (length window))) [
        | inl over ↦ rw over recent
        | inr fits ↦
            rw fits (sym (last_n-short c.max_context window pos (ground (arith, fits))) ∙ recent)
      ]

  apply-Holds :
      (all : List (ℕ × Event)) (k : Call) (c : Context)
      → 0 < c.max_context
      → Holds all c
      → Holds (all ++ event_of k ∷ []) (apply k c)
  unfolding set_global_goal add_local_task complete_task
  apply-Holds all (Call.goal now text) c pos h =
      add_context-Holds all now _ (record c { global_goal = text }) pos h
  apply-Holds all (Call.start now task_id task_type node_id) c pos h =
      add_context-Holds all now _ (with_task now task_id task_type node_id c) pos h
  apply-Holds all (Call.complete now task_id result) c pos h =
      add_context-Holds all now _ (with_result task_id result c) pos h

  apply-max_context : (k : Call) (c : Context) → (apply k c).max_context ≡ c.max_context
  unfolding set_global_goal add_local_task complete_task add_context
  apply-max_context (Call.goal now text) c = refl
  apply-max_context (Call.start now task_id task_type node_id) c = refl
  apply-max_context (Call.complete now task_id result) c = refl

  -- If the window, of a length other than 0, holds the most recent of the events so far, then after
  -- any calls it holds the most recent of those and of the calls' events, in order.
  pub apply_all-Holds :
      (all : List (ℕ × Event)) (ks : List Call) (c : Context)
      → 0 < c.max_context
      → Holds all c
      → Holds (all ++ events_of ks) (apply_all ks c)
  apply_all-Holds all [] c pos h = rw (append-nil all) h
  apply_all-Holds all (k ∷ ks) c pos h =
      subst (λ l. Holds l (apply_all ks (apply k c)))
        (append_assoc all (event_of k ∷ []) (events_of ks))
        (apply_all-Holds (all ++ event_of k ∷ []) ks (apply k c) (rw (apply-max_context k c) pos)
          (apply-Holds all k c pos h))

-- A reading more in a window of `maxlen` is the window of all the readings.
pub add_reading-last_n :
    {A : Type 0} (maxlen : ℕ) (all : List A) (x : A)
    → 0 < maxlen
    → add_reading maxlen x (last_n maxlen all) ≡ last_n maxlen (all ++ x ∷ [])
unfolding add_reading
add_reading-last_n maxlen all x pos = last_n-step maxlen all x pos
