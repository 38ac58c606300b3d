-- ===== src/Nandroid/Start/Invariant.antt =====
-- What holds in every state that the two threads reach, and what follows for the wait.
use nandroidfs.Nandroid.Start.{
  done, more, Steps, System, Phase, Daemon, waiting, connecting, mounted, failed, running, exited,
  started, woken, printing, Step, prints, ends, wakes, mounts, fails, Reach, start, later,
}
use nandroidfs.Nandroid.Output.{
  announces-append, handle_daemon_output_lem, shared, announces, told, Handled,
}
use nandroidfs.Nandroid.{handle_daemon_output, Agent, daemon_ended}
use nandroidfs.Text.Lines.{split_lines-append}
use nandroidfs.Base.{
  ◌≡◌, refl, ap, ◌∙◌, arith, ◌++◌, ◌||◌, ◌&&◌, not, Bool, true, false, some, Bytes, if◌then◌else◌,
}
use nandroidfs.Text.{split_lines}

-- A complete line of the output starts with the message.
abbrev pub announced : Bytes → Bool
announced printed = announces (split_lines printed).0

abbrev pub has_ended : Daemon → Bool
has_ended running = false
has_ended exited = true

-- `begin` is behind the test of `agent_ready`, and has not failed.
abbrev pub has_passed : Phase → Bool
has_passed waiting = false
has_passed connecting = true
has_passed mounted = true
has_passed failed = false

pub record Inv (s : System) : Type 0 where
  pub buffer : s.agent.agent_output_buffer ≡ (split_lines s.printed).1
  pub ready : s.agent.agent_ready ≡ (announced s.printed && not (has_ended s.daemon))
  pub notified :
      s.begin_at ≡ waiting
      → s.agent.agent_ready_notified ≡ (announced s.printed || has_ended s.daemon)
  pub passed : has_passed s.begin_at ≡ true → announced s.printed ≡ true

told-ready : (b : Bool) (a : Agent) → (told b a).agent_ready ≡ (a.agent_ready || b)
told-ready true a = ground arith
told-ready false a = ground arith

told-notified :
    (b : Bool) (a : Agent) → (told b a).agent_ready_notified ≡ (a.agent_ready_notified || b)
told-notified true a = ground arith
told-notified false a = ground arith

started-Inv : Inv started
unfolding split_lines
started-Inv = record {
  buffer = refl;
  ready = refl;
  notified = λ e. refl;
  passed = λ e. ground (arith, e);
}

-- More output may announce, and takes nothing back.
announced-append :
    (printed chunk : Bytes)
    → announced (printed ++ chunk)
      ≡ (announced printed || announces (split_lines ((split_lines printed).1 ++ chunk)).0)
announced-append printed chunk =
    rw (split_lines-append printed chunk)
      (announces-append (split_lines printed).0 (split_lines ((split_lines printed).1 ++ chunk)).0)

-- What a chunk does to the flags, in terms of everything printed.
Handled-flags :
    (printed chunk : Bytes) (a end : Agent)
    → a.agent_output_buffer ≡ (split_lines printed).1
    → Handled (a.agent_output_buffer ++ chunk) a end
    → (new : Bool) × (announced (printed ++ chunk) ≡ (announced printed || new))
      × (end.agent_output_buffer ≡ (split_lines (printed ++ chunk)).1)
      × (end.agent_ready ≡ (a.agent_ready || new))
      × (end.agent_ready_notified ≡ (a.agent_ready_notified || new))
Handled-flags printed chunk a end rest h =
    let new = announces (split_lines (a.agent_output_buffer ++ chunk)).0 in
    (
      new,
      rw rest (announced-append printed chunk),
      h.buffer ∙ rw (split_lines-append printed chunk, rest),
      ap (λ x. x.agent_ready) h.flags ∙ told-ready new (shared a),
      ap (λ x. x.agent_ready_notified) h.flags ∙ told-notified new (shared a),
    )

handle_daemon_output-Handled :
    (chunk : Bytes) (a end : Agent)
    → handle_daemon_output chunk a ≡ some end
    → Handled (a.agent_output_buffer ++ chunk) a end
handle_daemon_output-Handled chunk a end e =
    let (other, found, handled) = handle_daemon_output_lem chunk a in
    let same : other ≡ end = cc (found, e) in rw (← same) handled

printing-Inv :
    (s : System) (chunk : Bytes) (a : Agent)
    → Inv s
    → s.daemon ≡ running
    → handle_daemon_output chunk s.agent ≡ some a
    → Inv (printing chunk a s)
printing-Inv s chunk a h runs e =
    let (new, all, buffer, ready, notified) =
      Handled-flags s.printed chunk s.agent a h.buffer
        (handle_daemon_output-Handled chunk s.agent a e) in
    record {
      buffer = buffer;
      ready = ground (arith, all, ready, h.ready, runs);
      notified = λ w. ground (arith, all, notified, h.notified w, runs);
      passed = λ p. ground (arith, all, h.passed p);
    }

woken-Inv : (s : System) → Inv s → Inv (woken s)
unfolding woken
woken-Inv s h = record {
  buffer = h.buffer;
  ready = h.ready;
  notified = λ w. ground (arith, w);
  passed = λ p. ground (arith, p, h.ready);
}

Step-Inv : {s t : System} → Inv s → Step s t → Inv t
Step-Inv {s} h (prints chunk runs e free) = printing-Inv s chunk _ h runs e
Step-Inv {s} h (ends runs free) = record {
  buffer = unfold daemon_ended in h.buffer;
  ready = unfold daemon_ended in ground arith;
  notified = λ w. unfold daemon_ended in ground arith;
  passed = h.passed;
}
Step-Inv {s} h (wakes e n) = woken-Inv s h
Step-Inv {s} h (mounts e) = record {
  buffer = h.buffer;
  ready = h.ready;
  notified = λ w. ground (arith, w);
  passed = λ p. h.passed (rw e);
}
Step-Inv {s} h (fails e) = record {
  buffer = h.buffer;
  ready = h.ready;
  notified = λ w. ground (arith, w);
  passed = λ p. h.passed (rw e);
}

pub Reach-Inv : {s : System} → Reach s → Inv s
Reach-Inv start = started-Inv
Reach-Inv (later r step) = Step-Inv (Reach-Inv r) step

-- However the threads interleave, `begin` goes on to connect only if the daemon has printed a
-- complete line that starts with the ready message.
pub begin_passes_announced :
    {s : System} → Reach s → has_passed s.begin_at ≡ true → announced s.printed ≡ true
begin_passes_announced r p = (Reach-Inv r).passed p

-- What the wait has to see: a complete line that starts with the message, or the daemon's end.
abbrev pub IsTold : System → Type 0
IsTold s = (announced s.printed || has_ended s.daemon) ≡ true

-- Where the wait leads.
abbrev pub verdict : System → Phase
verdict s = if announced s.printed && not (has_ended s.daemon) then connecting else failed

woken-verdict : (s : System) → Inv s → (woken s).begin_at ≡ verdict s
unfolding woken
woken-verdict s h = rw h.ready

IsTold-Step : {s t : System} → Inv s → Step s t → IsTold s → IsTold t
IsTold-Step {s} h (prints chunk runs e free) is_told =
    let (new, all, buffer, ready, notified) =
      Handled-flags s.printed chunk s.agent _ h.buffer
        (handle_daemon_output-Handled chunk s.agent _ e) in
    ground (arith, all, is_told)
IsTold-Step {s} h (ends runs free) is_told = ground arith
IsTold-Step {s} h (wakes e n) is_told = unfold woken in is_told
IsTold-Step {s} h (mounts e) is_told = is_told
IsTold-Step {s} h (fails e) is_told = is_told

IsTold-Steps : {s t : System} → Reach s → IsTold s → Steps s t → Reach t × IsTold t
IsTold-Steps r is_told done = (r, is_told)
IsTold-Steps r is_told (more steps step) =
    let (reached, still) = IsTold-Steps r is_told steps in
    (later reached step, IsTold-Step (Reach-Inv reached) step still)

-- Once the daemon has printed the ready line or has ended, the wait of `begin` can end in every
-- later state in which it has not ended yet, whatever the threads do in between; it ends with a
-- connection being made if the line was printed and the daemon has not ended, and else with a
-- failure.
pub begin_wakes :
    {s t : System}
    → Reach s
    → IsTold s
    → Steps s t
    → t.begin_at ≡ waiting
    → Step t (woken t) × ((woken t).begin_at ≡ verdict t)
begin_wakes {s} {t} r is_told steps w =
    let (reached, still) = IsTold-Steps r is_told steps in
    let h = Reach-Inv reached in (wakes w (h.notified w ∙ still), woken-verdict t h)
