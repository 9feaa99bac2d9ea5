-- ===== src/AgentLoops/EventOrder.antt =====
-- The events that `appendEvent` of src/agent-loops/agent-loop-manager.ts keeps in a run.
use folder_forge.Base.{
  ℕ, ◌+◌, ◌≤◌, ◌<◌, ◌≡◌, refl, String, List, [], ◌∷◌, ◌++◌, length, All, All-append, arith, leb,
  Bool-cases, inl, inr,
}
use folder_forge.Json.{Fields}
use folder_forge.AgentLoops.{AgentLoopEvent, AgentLoopRun, LoopHost}
use folder_forge.AgentLoops.Files.{last_seq, keep_last, max_events, new_event, append_event}

-- Each event has a higher number than all before it.
abbrev pub Increasing : List AgentLoopEvent → Type 0
Increasing [] = Unit
Increasing (e ∷ rest) = All (λ f. e.seq < f.seq) rest × Increasing rest

last_above :
    (n : ℕ) (es : List AgentLoopEvent) (e : AgentLoopEvent)
    → All (λ f. n < f.seq) (e ∷ es)
    → n < last_seq (e ∷ es)
unfolding last_seq
last_above n [] e h = h.0
last_above n (f ∷ es) e h = last_above n es f h.1

below_last : (es : List AgentLoopEvent) → Increasing es → All (λ f. f.seq ≤ last_seq es) es
unfolding last_seq
below_last [] h = tt
below_last (e ∷ []) h = (omega arith, tt)
below_last (e ∷ f ∷ es) h =
    let above = last_above e.seq es f h.0 in (omega arith, below_last (f ∷ es) h.1)

Increasing-snoc :
    (es : List AgentLoopEvent) (e : AgentLoopEvent)
    → Increasing es
    → All (λ f. f.seq < e.seq) es
    → Increasing (es ++ e ∷ [])
Increasing-snoc [] e h below = (tt, tt)
Increasing-snoc (f ∷ es) e h below =
    (All-append _ es (e ∷ []) h.0 (below.0, tt), Increasing-snoc es e h.1 below.1)

All-suc : (n : ℕ) (es : List AgentLoopEvent) → All (λ f. f.seq ≤ n) es → All (λ f. f.seq < n + 1) es
All-suc n [] h = tt
All-suc n (e ∷ es) h = (omega arith, All-suc n es h.1)

keep_last-Increasing :
    (n : ℕ) (es : List AgentLoopEvent) → Increasing es → Increasing (keep_last n es)
unfolding keep_last
keep_last-Increasing n [] h = tt
keep_last-Increasing n (e ∷ es) h = elim (Bool-cases (leb (length (e ∷ es)) n)) [
  | inl b ↦ rw b h
  | inr b ↦ rw b (keep_last-Increasing n es h.1)
]

length-keep_last : (n : ℕ) (xs : List AgentLoopEvent) → length (keep_last n xs) ≤ n
unfolding keep_last
length-keep_last n [] = omega arith
length-keep_last n (x ∷ xs) = ground (arith, length-keep_last n xs)

-- The last event is kept.
last_seq-keep_last :
    (n : ℕ) (es : List AgentLoopEvent) → 0 < n → last_seq (keep_last n es) ≡ last_seq es
unfolding keep_last last_seq
last_seq-keep_last n [] pos = refl
last_seq-keep_last n (e ∷ []) pos = ground arith
last_seq-keep_last n (e ∷ f ∷ es) pos = ground (arith, last_seq-keep_last n (f ∷ es) pos)

last_seq-snoc : (es : List AgentLoopEvent) (e : AgentLoopEvent) → last_seq (es ++ e ∷ []) ≡ e.seq
unfolding last_seq
last_seq-snoc [] e = refl
last_seq-snoc (f ∷ []) e = refl
last_seq-snoc (f ∷ g ∷ es) e = last_seq-snoc (g ∷ es) e

module _ {T : Type 0} (h : LoopHost T) (now : ℕ) (kind message : String) (details : Fields)
    (run : AgentLoopRun T) where
  pub append_event-Increasing :
      Increasing run.events → Increasing (append_event h now kind message details run).events
  unfolding append_event new_event
  append_event-Increasing v =
      keep_last-Increasing max_events _
        (Increasing-snoc run.events _ v (All-suc _ run.events (below_last run.events v)))

  pub append_event-bounded :
      length (append_event h now kind message details run).events ≤ max_events
  unfolding append_event
  append_event-bounded =
      length-keep_last max_events (run.events ++ new_event h now kind message details run ∷ [])

  pub append_event-last_seq :
      last_seq (append_event h now kind message details run).events ≡ last_seq run.events + 1
  unfolding append_event new_event
  append_event-last_seq =
      rw (last_seq-keep_last max_events _ (omega arith)) (last_seq-snoc run.events _)
