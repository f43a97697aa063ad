-- ===== src/Watch/Filtered/Lifecycle/Open.antt =====
-- How many watches are open.
use mathlib.Core.Path.{subst}
use kpt_resource_group.Base.{
  sym, if_true, if_false, length, ◌≤◌, ℕ, ◌≡◌, refl, ◌∙◌, ap, ◌⊎◌, inl, inr, Bool, true, false,
  Option, none, some, List, [], ◌∷◌, arith, ◌==◌, nat_eq, Bool-cases, ==_refl,
}
use kpt_resource_group.Watch.Filtered.Lifecycle.{
  Phase, starting, reading, returned, Lifecycle, new_filtered, close, stop_base, begin_watch, start,
  stop, Action, starts, leaves, stops, ends, act, acts,
}

-- No watch is open but the base, and none is after Stop.
abbrev pub IsTidy : Option ℕ → Bool → List ℕ → Type 0
IsTidy none stopped open_watches = open_watches ≡ []
IsTidy (some i) true open_watches = open_watches ≡ []
IsTidy (some i) false open_watches = (open_watches ≡ []) ⊎ (open_watches ≡ i ∷ [])

abbrev pub Tidy : Lifecycle → Type 0
Tidy w = IsTidy w.base w.stopped w.open_watches

close_base : (ws : List ℕ) (i : ℕ) → (ws ≡ []) ⊎ (ws ≡ i ∷ []) → close ws i ≡ []
unfolding close
close_base ws i (inl e) = rw e
close_base ws i (inr e) = rw e (ground (arith, ==_refl i))

pub close-IsTidy :
    (o : Option ℕ) (b : Bool) (ws : List ℕ) (j : ℕ) → IsTidy o b ws → IsTidy o b (close ws j)
unfolding close
close-IsTidy none b ws j h = rw h
close-IsTidy (some i) true ws j h = rw h
close-IsTidy (some i) false ws j (inl h) = inl (rw h)
close-IsTidy (some i) false ws j (inr h) = elim (Bool-cases (i == j)) [
  | inl e ↦ inl (rw (h, e))
  | inr e ↦ inr (rw (h, e))
]

pub IsTidy-nothing : (o : Option ℕ) (b : Bool) (ws : List ℕ) → ws ≡ [] → IsTidy o b ws
IsTidy-nothing none b ws h = h
IsTidy-nothing (some i) true ws h = h
IsTidy-nothing (some i) false ws h = inl h

-- w.base.Stop() leaves no watch open
close_all :
    (o : Option ℕ) (b : Bool) (ws : List ℕ)
    → IsTidy o b ws
    → (elim o [ none ↦ ws | some i ↦ close ws i ]) ≡ []
unfolding close
close_all none b ws h = h
close_all (some i) true ws h = rw h
close_all (some i) false ws h = close_base ws i h

stop_base-lem :
    (w : Lifecycle)
    → ((stop_base w).open_watches
        ≡ (elim w.base [ none ↦ w.open_watches | some i ↦ close w.open_watches i ]))
      × ((stop_base w).base ≡ w.base)
      × ((stop_base w).stopped ≡ w.stopped)
unfolding stop_base
stop_base-lem w = ground arith

pub stop_base-none : (w : Lifecycle) → Tidy w → (stop_base w).open_watches ≡ []
stop_base-none w h = (stop_base-lem w).0 ∙ close_all w.base w.stopped w.open_watches h

begin_watch-Tidy :
    (w : Lifecycle) (ok : Bool) → w.open_watches ≡ [] → w.stopped ≡ false → Tidy (begin_watch w ok)
unfolding begin_watch
begin_watch-Tidy w false h s = IsTidy-nothing w.base w.stopped w.open_watches h
begin_watch-Tidy w true h s = rw s (inr (ap (λ ws. w.opened ∷ ws) h))

start-Tidy : (w : Lifecycle) (ok : Bool) → Tidy w → Tidy (start w ok)
unfolding start
start-Tidy w ok h = elim (Bool-cases w.stopped) [
  | inl s ↦ subst Tidy (sym (if_true _ _ s)) h
  | inr s ↦
      subst Tidy (sym (if_false _ _ s))
        (begin_watch-Tidy (stop_base w) ok (stop_base-none w h) ((stop_base-lem w).2 ∙ s))
]

pub act-Tidy : (w : Lifecycle) (x : Action) → Tidy w → Tidy (act w x)
unfolding act stop
act-Tidy w (starts ok) h = elim w.phase as (λ p. Tidy (elim p [ starting ↦ start w ok | _ ↦ w ])) [
  | starting ↦ start-Tidy w ok h
  | _ ↦ h
]
act-Tidy w leaves h =
    elim w.phase as (λ p. Tidy (elim p [ reading ↦ record w { phase = starting } | _ ↦ w ])) [
      | reading ↦ h
      | _ ↦ h
    ]
act-Tidy w stops h =
    IsTidy-nothing (stop_base w).base true (stop_base w).open_watches (stop_base-none w h)
act-Tidy w (ends i) h = close-IsTidy w.base w.stopped w.open_watches i h

-- Stop is for good, and no watch is opened after it.
pub begin_base :
    (w : Lifecycle) → ((stop_base w).stopped ≡ w.stopped) × ((stop_base w).opened ≡ w.opened)
unfolding stop_base
begin_base w = ground arith

-- Stop was called, after this many watches.
abbrev pub IsStopped : ℕ → Lifecycle → Type 0
IsStopped n w = (w.stopped ≡ true) × (w.opened ≡ n)

start-IsStopped : (n : ℕ) (w : Lifecycle) (ok : Bool) → IsStopped n w → IsStopped n (start w ok)
unfolding start
start-IsStopped n w ok (s, o) = subst (IsStopped n) (sym (if_true _ _ s)) (s, o)

pub act-IsStopped : (n : ℕ) (w : Lifecycle) (x : Action) → IsStopped n w → IsStopped n (act w x)
unfolding act stop
act-IsStopped n w (starts ok) h =
    elim w.phase as (λ p. IsStopped n (elim p [ starting ↦ start w ok | _ ↦ w ])) [
      | starting ↦ start-IsStopped n w ok h
      | _ ↦ h
    ]
act-IsStopped n w leaves h =
    elim w.phase
      as (λ p. IsStopped n (elim p [ reading ↦ record w { phase = starting } | _ ↦ w ])) [
        | reading ↦ h
        | _ ↦ h
      ]
act-IsStopped n w stops h = (refl, (begin_base w).1 ∙ h.1)
act-IsStopped n w (ends i) h = h

acts-IsStopped :
    (n : ℕ) (w : Lifecycle) (xs : List Action) → IsStopped n w → IsStopped n (acts w xs)
unfolding acts
acts-IsStopped n w [] h = h
acts-IsStopped n w (x ∷ xs) h = acts-IsStopped n (act w x) xs (act-IsStopped n w x h)

acts-Tidy : (w : Lifecycle) (xs : List Action) → Tidy w → Tidy (acts w xs)
unfolding acts
acts-Tidy w [] h = h
acts-Tidy w (x ∷ xs) h = acts-Tidy (act w x) xs (act-Tidy w x h)

pub one_open : (o : Option ℕ) (b : Bool) (ws : List ℕ) → IsTidy o b ws → length ws ≤ 1
one_open none b ws h = rw h (omega arith)
one_open (some i) true ws h = rw h (omega arith)
one_open (some i) false ws (inl h) = rw h (omega arith)
one_open (some i) false ws (inr h) = rw h (omega arith)

pub none_open : (o : Option ℕ) (b : Bool) (ws : List ℕ) → b ≡ true → IsTidy o b ws → ws ≡ []
none_open none b ws e h = h
none_open (some i) true ws e h = h
none_open (some i) false ws e h = cc

start-returned : (w : Lifecycle) (ok : Bool) → w.stopped ≡ true → (start w ok).phase ≡ returned
unfolding start
start-returned w ok h = ap (λ (v : Lifecycle). v.phase) (if_true _ _ h)

-- When the loop ends after Stop, the next call of start makes Run return.
last_fields :
    (p : Phase) (o : Option ℕ) (b : Bool) (ws : List ℕ) (n : ℕ) (ok : Bool)
    → b ≡ true
    → let w : Lifecycle = record {
      phase = p;
      base = o;
      stopped = b;
      open_watches = ws;
      opened = n;
    } in
      (act (act w leaves) (starts ok)).phase ≡ returned
unfolding act
last_fields starting o b ws n ok h =
    start-returned
      (record { phase = starting; base = o; stopped = b; open_watches = ws; opened = n }) ok h
last_fields reading o b ws n ok h =
    start-returned
      (record { phase = starting; base = o; stopped = b; open_watches = ws; opened = n }) ok h
last_fields returned o b ws n ok h = refl

last_step :
    (w : Lifecycle) (ok : Bool)
    → w.stopped ≡ true
    → (act (act w leaves) (starts ok)).phase ≡ returned
last_step w ok h = last_fields w.phase w.base w.stopped w.open_watches w.opened ok h

-- However start, Stop, the end of Run's loop and the ends of watches by the server interleave, a
-- watcher has at most one watch open, and from Stop on it has none and opens none, and Run returns
-- at the next call of start.
pub watches_open :
    (before after : List Action) (ok : Bool)
    → (length (acts new_filtered before).open_watches ≤ 1)
      × ((acts (stop (acts new_filtered before)) after).open_watches ≡ [])
      × ((acts (stop (acts new_filtered before)) after).opened ≡ (acts new_filtered before).opened)
      × ((act (act (acts (stop (acts new_filtered before)) after) leaves) (starts ok)).phase
          ≡ returned)
unfolding new_filtered stop stop_base act
watches_open before after ok =
    let w = acts new_filtered before in
    let tidy = acts-Tidy new_filtered before refl in
    let (s, o) = acts-IsStopped w.opened (stop w) after (refl, (begin_base w).1) in
    let tidy' = acts-Tidy (stop w) after (act-Tidy w stops tidy) in
    (
      one_open w.base w.stopped w.open_watches tidy,
      none_open _ _ _ s tidy',
      o,
      last_step (acts (stop w) after) ok s,
    )
