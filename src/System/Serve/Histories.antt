-- ===== src/System/Serve/Histories.antt =====
-- What the radio thread of `serve` in proxyd/src/main.rs has done, however connections, arrivals and
-- rounds of the arbiter interleave.
use hackrf_proxy.Base.{
  ℕ, ◌≤◌, ◌<◌, true, false, List, [], ◌∷◌, ◌++◌, append-nil, append_assoc, length, length-append,
  All, ◌≡◌, refl, sym, ap, ◌∙◌, subst, arith, ◌⊎◌, inl, inr,
}
use hackrf_proxy.Base.Floats.{F64}
use hackrf_proxy.Engine.World.{Transceiver, Os}
use hackrf_proxy.Engine.State.{Config, Sys}
use hackrf_proxy.Engine.Commands.{Command}
use hackrf_proxy.Engine.Arbiter.{Inbox, start, round, run_from, run}
use hackrf_proxy.Engine.Arbiter.Replies.{Kind, kinds, owed, all_owed, run_answers}
use hackrf_proxy.System.Serve.{Daemon, command_queue, launch, accept, turn, Step, Steps}

-- The commands that the arbiter has found.
abbrev pub commands_in : List Inbox → List Command
commands_in [] = []
commands_in (Inbox.received c ∷ inbox) = c ∷ commands_in inbox
commands_in (Inbox.empty ∷ inbox) = commands_in inbox
commands_in (Inbox.disconnected ∷ inbox) = commands_in inbox

-- What is owed for commands, in order.
abbrev pub owed_for : List Command → List Kind
owed_for [] = []
owed_for (c ∷ cs) = owed c ++ owed_for cs

abbrev pub IsOpen : Inbox → Type 0
IsOpen (Inbox.received c) = Unit
IsOpen Inbox.empty = Unit
IsOpen Inbox.disconnected = ⊥

abbrev pub Open : List Inbox → Type 0
Open inbox = All IsOpen inbox

commands_in-append :
    (xs ys : List Inbox) → commands_in (xs ++ ys) ≡ commands_in xs ++ commands_in ys
commands_in-append [] ys = refl
commands_in-append (Inbox.received c ∷ xs) ys = ap (λ l. c ∷ l) (commands_in-append xs ys)
commands_in-append (Inbox.empty ∷ xs) ys = commands_in-append xs ys
commands_in-append (Inbox.disconnected ∷ xs) ys = commands_in-append xs ys

Open-append : (xs : List Inbox) (i : Inbox) → Open xs → IsOpen i → Open (xs ++ i ∷ [])
Open-append [] i h e = (e, tt)
Open-append (x ∷ xs) i (o, h) e = (o, Open-append xs i h e)

owed_for-append : (xs ys : List Command) → owed_for (xs ++ ys) ≡ owed_for xs ++ owed_for ys
owed_for-append [] ys = refl
owed_for-append (c ∷ xs) ys =
    ap (λ l. owed c ++ l) (owed_for-append xs ys)
    ∙ sym (append_assoc (owed c) (owed_for xs) (owed_for ys))

-- What is owed up to the closing.
all_owed-commands_in :
    (inbox rest : List Inbox)
    → Open inbox
    → (rest ≡ []) ⊎ (rest ≡ Inbox.disconnected ∷ [])
    → all_owed (inbox ++ rest) ≡ owed_for (commands_in inbox)
all_owed-commands_in [] rest h (inl e) = ap all_owed e
all_owed-commands_in [] rest h (inr e) = ap all_owed e
all_owed-commands_in (Inbox.received c ∷ xs) rest (o, h) e =
    ap (λ l. owed c ++ l) (all_owed-commands_in xs rest h e)
all_owed-commands_in (Inbox.empty ∷ xs) rest (o, h) e = all_owed-commands_in xs rest h e
all_owed-commands_in (Inbox.disconnected ∷ xs) rest (o, h) e = absurd o

module _ (fp : F64) {W : Type 0} (tr : Transceiver W) (os : Os W) where
  open fp use {Float}

  run_from-append :
      (inbox : List Inbox) (i : Inbox) (s : Sys Float W)
      → Open inbox
      → run_from fp tr os (inbox ++ i ∷ []) s ≡ round fp tr os i (run_from fp tr os inbox s)
  unfolding run_from
  run_from-append [] Inbox.empty s h = refl
  run_from-append [] (Inbox.received c) s h = refl
  run_from-append [] Inbox.disconnected s h = refl
  run_from-append (Inbox.received c ∷ inbox) i s (o, h) =
      run_from-append inbox i (round fp tr os (Inbox.received c) s) h
  run_from-append (Inbox.empty ∷ inbox) i s (o, h) =
      run_from-append inbox i (round fp tr os Inbox.empty s) h
  run_from-append (Inbox.disconnected ∷ inbox) i s (o, h) = absurd o

  -- Whether the radio thread has returned, with what it found last.
  abbrev pub Stands : Daemon Float W → List Inbox → Type 0
  Stands d past =
      ((d.is_running ≡ true) × (d.inbox ≡ past))
      ⊎ ((d.is_running ≡ false)
          × (d.is_serving ≡ false)
          × (d.queue ≡ [])
          × (d.inbox ≡ past ++ Inbox.disconnected ∷ []))

  -- The queue has its bound, and between them the arbiter and the queue have all commands, in order.
  pub record IsServed (config : Config Float) (w : W) (d : Daemon Float W) : Type 0 where
    pub past : List Inbox
    pub open_past : Open past
    pub stands : Stands d past
    pub ran : d.arbiter ≡ run fp tr os config w d.inbox
    pub in_order : d.accepted ≡ commands_in past ++ d.queue
    pub bounded : length d.queue ≤ command_queue

  launch-IsServed : (config : Config Float) (w : W) → IsServed config w (launch fp tr os config w)
  unfolding launch run run_from
  launch-IsServed config w = record {
    past = [];
    open_past = tt;
    stands = inl (refl, refl);
    ran = refl;
    in_order = refl;
    bounded = omega arith;
  }

  Stands-shut :
      (d : Daemon Float W) (past : List Inbox)
      → Stands d past
      → Stands (record d { is_serving = false }) past
  Stands-shut d past (inl h) = inl h
  Stands-shut d past (inr (gone, shut, drained, last)) = inr (gone, refl, drained, last)

  Stands-accept :
      (c : Command) (d : Daemon Float W) (past : List Inbox)
      → d.is_serving ≡ true
      → Stands d past
      → Stands (accept fp tr os c d) past
  Stands-accept c d past serving (inl h) = inl h
  Stands-accept c d past serving (inr (gone, shut, drained, last)) = ground arith

  found :
      (d : Daemon Float W) (past : List Inbox)
      → d.is_running ≡ true
      → Stands d past
      → d.inbox ≡ past
  found d past running (inl (r, e)) = e
  found d past running (inr (gone, shut, drained, last)) = ground arith

  accept-IsServed :
      (config : Config Float) (w : W) (c : Command) (d : Daemon Float W)
      → d.is_serving ≡ true
      → length d.queue < command_queue
      → IsServed config w d
      → IsServed config w (accept fp tr os c d)
  accept-IsServed config w c d serving room h = record {
    past = h.past;
    open_past = h.open_past;
    stands = Stands-accept c d h.past serving h.stands;
    ran = h.ran;
    in_order =
        ap (λ l. l ++ c ∷ []) h.in_order ∙ append_assoc (commands_in h.past) d.queue (c ∷ []);
    bounded = omega (arith, length-append d.queue (c ∷ []));
  }

  -- What a round of the arbiter makes of the past.
  turned-run :
      (config : Config Float) (w : W) (i : Inbox) (d : Daemon Float W) (past : List Inbox)
      → Open past
      → d.inbox ≡ past
      → d.arbiter ≡ run fp tr os config w d.inbox
      → round fp tr os i d.arbiter ≡ run fp tr os config w (d.inbox ++ i ∷ [])
  unfolding run
  turned-run config w i d past no_end same ran =
      ap (round fp tr os i) ran
      ∙ sym (run_from-append d.inbox i (start fp tr os config w) (subst Open (sym same) no_end))

  take-IsServed :
      (config : Config Float) (w : W) (c : Command) (rest : List Command) (d : Daemon Float W)
      → d.is_running ≡ true
      → d.queue ≡ c ∷ rest
      → IsServed config w d
      → IsServed config w (turn fp tr os (Inbox.received c) (record d { queue = rest }))
  take-IsServed config w c rest d running next h =
      let same = found d h.past running h.stands in
      let less : length rest ≤ command_queue = omega (arith, h.bounded, ap length next) in
      record {
        past = h.past ++ Inbox.received c ∷ [];
        open_past = Open-append h.past (Inbox.received c) h.open_past tt;
        stands = inl (running, ap (λ l. l ++ Inbox.received c ∷ []) same);
        ran = turned-run config w (Inbox.received c) d h.past h.open_past same h.ran;
        in_order =
            h.in_order
            ∙ ap (λ l. commands_in h.past ++ l) next
            ∙ sym (append_assoc (commands_in h.past) (c ∷ []) rest)
            ∙ ap (λ l. l ++ rest) (sym (commands_in-append h.past (Inbox.received c ∷ [])));
        bounded = less;
      }

  poll-IsServed :
      (config : Config Float) (w : W) (d : Daemon Float W)
      → d.is_running ≡ true
      → IsServed config w d
      → IsServed config w (turn fp tr os Inbox.empty d)
  poll-IsServed config w d running h =
      let same = found d h.past running h.stands in
      record {
        past = h.past ++ Inbox.empty ∷ [];
        open_past = Open-append h.past Inbox.empty h.open_past tt;
        stands = inl (running, ap (λ l. l ++ Inbox.empty ∷ []) same);
        ran = turned-run config w Inbox.empty d h.past h.open_past same h.ran;
        in_order =
            h.in_order
            ∙ ap (λ l. l ++ d.queue)
                (sym (append-nil (commands_in h.past))
                  ∙ sym (commands_in-append h.past (Inbox.empty ∷ [])));
        bounded = h.bounded;
      }

  leave-IsServed :
      (config : Config Float) (w : W) (d : Daemon Float W)
      → d.is_running ≡ true
      → d.is_serving ≡ false
      → d.queue ≡ []
      → IsServed config w d
      → IsServed config w (turn fp tr os Inbox.disconnected (record d { is_running = false }))
  leave-IsServed config w d running shut drained h =
      let same = found d h.past running h.stands in
      record {
        past = h.past;
        open_past = h.open_past;
        stands = inr (refl, shut, drained, ap (λ l. l ++ Inbox.disconnected ∷ []) same);
        ran = turned-run config w Inbox.disconnected d h.past h.open_past same h.ran;
        in_order = h.in_order;
        bounded = h.bounded;
      }

  step-IsServed :
      (config : Config Float) (w : W) {d e : Daemon Float W}
      → Step fp tr os d e
      → IsServed config w d
      → IsServed config w e
  step-IsServed config w (Step.request {d} c allowed serving room) h =
      accept-IsServed config w c d serving room h
  step-IsServed config w (Step.arrival {d} serving room) h =
      accept-IsServed config w Command.device_arrived d serving room h
  step-IsServed config w (Step.take {d} c rest running next) h =
      take-IsServed config w c rest d running next h
  step-IsServed config w (Step.poll {d} running serving drained wanted) h =
      poll-IsServed config w d running h
  step-IsServed config w (Step.shut {d} serving) h = record {
    past = h.past;
    open_past = h.open_past;
    stands = Stands-shut d h.past h.stands;
    ran = h.ran;
    in_order = h.in_order;
    bounded = h.bounded;
  }
  step-IsServed config w (Step.leave {d} running shut drained) h =
      leave-IsServed config w d running shut drained h

  pub steps-IsServed :
      (config : Config Float) (w : W) {d : Daemon Float W} {n : ℕ} {e : Daemon Float W}
      → Steps fp tr os d n e
      → IsServed config w d
      → IsServed config w e
  steps-IsServed config w Steps.here h = h
  steps-IsServed config w (Steps.then steps step) h =
      step-IsServed config w step (steps-IsServed config w steps h)

  pub launched-IsServed :
      (config : Config Float) (w : W) {n : ℕ} {d : Daemon Float W}
      → Steps fp tr os (launch fp tr os config w) n d
      → IsServed config w d
  launched-IsServed config w steps = steps-IsServed config w steps (launch-IsServed config w)

  last_round :
      (config : Config Float) (w : W) (d : Daemon Float W) (h : IsServed config w d)
      → d.is_running ≡ false
      → Stands d h.past
      → (s : Sys Float W) × (d.arbiter ≡ round fp tr os Inbox.disconnected s)
  unfolding run
  last_round config w d h gone (inl (running, same)) = ground arith
  last_round config w d h gone (inr (ended, shut, drained, last)) =
      let begun = start fp tr os config w in
      (
        run_from fp tr os h.past begun,
        h.ran
            ∙ ap (λ l. run_from fp tr os l begun) last
            ∙ run_from-append h.past Inbox.disconnected begun h.open_past,
      )

  commands_in-past :
      (d : Daemon Float W) (past : List Inbox)
      → Stands d past
      → commands_in d.inbox ≡ commands_in past
  commands_in-past d past (inl (running, same)) = ap commands_in same
  commands_in-past d past (inr (gone, shut, drained, last)) =
      ap commands_in last
      ∙ commands_in-append past (Inbox.disconnected ∷ [])
      ∙ append-nil (commands_in past)

  all_owed-past :
      (d : Daemon Float W) (past : List Inbox)
      → Open past
      → Stands d past
      → all_owed d.inbox ≡ owed_for (commands_in past)
  all_owed-past d past no_end (inl (running, same)) =
      ap all_owed (same ∙ sym (append-nil past)) ∙ all_owed-commands_in past [] no_end (inl refl)
  all_owed-past d past no_end (inr (gone, shut, drained, last)) =
      ap all_owed last ∙ all_owed-commands_in past (Inbox.disconnected ∷ []) no_end (inr refl)

  drained_at_end :
      (d : Daemon Float W) (past : List Inbox) → Stands d past → d.is_running ≡ false → d.queue ≡ []
  drained_at_end d past (inl (running, same)) gone = ground arith
  drained_at_end d past (inr (h, shut, drained, last)) gone = drained

  -- What the radio thread did last, once it has returned.
  pub launched-last :
      (config : Config Float) (w : W) {n : ℕ} {d : Daemon Float W}
      → Steps fp tr os (launch fp tr os config w) n d
      → d.is_running ≡ false
      → (s : Sys Float W) × (d.arbiter ≡ round fp tr os Inbox.disconnected s)
  launched-last config w {d = d} steps gone =
      let h = launched-IsServed config w steps in last_round config w d h gone h.stands

  -- However connections, arrivals and rounds interleave, the arbiter is where `run` is on what it
  -- has found, at most 16 commands wait for it, and it has found, in the order in which they
  -- were sent, all commands but those that wait.
  pub launch-run :
      (config : Config Float) (w : W) (n : ℕ) (d : Daemon Float W)
      → Steps fp tr os (launch fp tr os config w) n d
      → (d.arbiter ≡ run fp tr os config w d.inbox)
        × (length d.queue ≤ command_queue)
        × (d.accepted ≡ commands_in d.inbox ++ d.queue)
  launch-run config w n d steps =
      let h = launched-IsServed config w steps in
      (
        h.ran,
        h.bounded,
        h.in_order ∙ ap (λ l. l ++ d.queue) (sym (commands_in-past d h.past h.stands)),
      )

  -- At any time every command that was sent has been answered, in the order of sending and with its
  -- kind of reply, or waits in the queue; notices of arrivals are not answered. Once the radio
  -- thread has returned none waits: a shutdown leaves no command that was sent without its answer.
  pub launch_answers :
      (config : Config Float) (w : W) (n : ℕ) (d : Daemon Float W)
      → Steps fp tr os (launch fp tr os config w) n d
      → (kinds d.arbiter.replies ++ owed_for d.queue ≡ owed_for d.accepted)
        × (d.is_running ≡ false → kinds d.arbiter.replies ≡ owed_for d.accepted)
  launch_answers config w n d steps =
      let h = launched-IsServed config w steps in
      let answered : kinds d.arbiter.replies ≡ owed_for (commands_in h.past) =
        ap (λ (s : Sys Float W). kinds s.replies) h.ran
        ∙ run_answers fp tr os config w d.inbox
        ∙ all_owed-past d h.past h.open_past h.stands in
      let all : kinds d.arbiter.replies ++ owed_for d.queue ≡ owed_for d.accepted =
        ap (λ l. l ++ owed_for d.queue) answered
        ∙ sym (owed_for-append (commands_in h.past) d.queue)
        ∙ ap owed_for (sym h.in_order) in
      (
        all,
        λ gone.
            sym (append-nil (kinds d.arbiter.replies))
            ∙ ap (λ q. kinds d.arbiter.replies ++ owed_for q)
                (sym (drained_at_end d h.past h.stands gone))
            ∙ all,
      )
