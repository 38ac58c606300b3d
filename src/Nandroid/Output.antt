-- ===== src/Nandroid/Output.antt =====
-- nandroidfs/Nandroid.cpp: the output of the daemon, however the pipe cuts it into chunks.
use nandroidfs.Base.{
  append_assoc, append-nil, inr, inl, Bool-cases, drop, drop-append_exact, ◌||◌, take, length,
  if◌then◌else◌, ◌≡◌, refl, ap, sym, ◌∙◌, arith, ◌++◌, ℕ, ◌+◌, ◌≤◌, zero, suc, Bool, true, false,
  Option, none, some, List, [], ◌∷◌, Bytes,
}
use nandroidfs.Text.Lines.{split_lines-AreLines, split_lines-append, split_lines-rest, Lacks-uncons}
use nandroidfs.Nandroid.{
  new_agent, substr, Agent, agent_ready_msg, mark_ready, handle_line, handle_daemon_output,
}
use nandroidfs.Text.Loop.{for_newlines_lem, visit, DoesLine}
use nandroidfs.Text.{index_of, Lacks, starts_with, newline, split_lines}

-- A prefix without a newline does not reach beyond the line.
starts_with-take :
    (prefix line more : Bytes) (n : ℕ)
    → Lacks newline prefix
    → length line ≤ n
    → starts_with (take n (line ++ (newline ∷ more))) prefix ≡ starts_with line prefix
unfolding starts_with
starts_with-take [] line more n h le = refl
starts_with-take (p ∷ prefix) [] more zero h le = refl
starts_with-take (p ∷ prefix) [] more (suc n) h le = ground (arith, Lacks-uncons newline p prefix h)
starts_with-take (p ∷ prefix) (b ∷ line) more zero h le = absurd (omega arith)
starts_with-take (p ∷ prefix) (b ∷ line) more (suc n) h le =
    rw (starts_with-take prefix line more n (Lacks-uncons newline p prefix h).1 (omega arith))

-- What the other thread sees of the handling of a line.
abbrev pub shared : Agent → Agent
shared a = record a { agent_output_buffer = []; agent_log = [] }

abbrev pub is_ready_line : Bytes → Bool
is_ready_line line = starts_with line agent_ready_msg

abbrev pub see_line : Bytes → Agent → Agent
see_line line a = if is_ready_line line then mark_ready a else a

agent_ready_msg-Lacks : Lacks newline agent_ready_msg
unfolding index_of
agent_ready_msg-Lacks = refl

handle_line-DoesLine : DoesLine handle_line shared see_line
unfolding handle_line
handle_line-DoesLine before line more s lacks =
    let text = before ++ (line ++ (newline ∷ more)) in
    let seen : starts_with (substr (length before) (length before + length line) text)
          agent_ready_msg
        ≡ is_ready_line line =
      rw (drop-append_exact (length before) before (line ++ (newline ∷ more)) refl) (
        starts_with-take agent_ready_msg line more (length before + length line)
          agent_ready_msg-Lacks (omega arith)) in
    elim (Bool-cases (is_ready_line line)) [
      | inl ready ↦ rw (seen, ready)
      | inr other ↦ rw (seen, other)
    ]

-- Whether a line among them starts with the message.
abbrev pub announces : List Bytes → Bool
announces [] = false
announces (line ∷ lines) = is_ready_line line || announces lines

abbrev pub told : Bool → Agent → Agent
told ready a = if ready then mark_ready a else a

told-told : (b c : Bool) (a : Agent) → told c (told b a) ≡ told (b || c) a
told-told true true a = refl
told-told true false a = refl
told-told false c a = refl

visit-announces :
    (lines : List Bytes) (a : Agent) → visit see_line lines a ≡ told (announces lines) a
visit-announces [] a = refl
visit-announces (line ∷ lines) a =
    visit-announces lines (see_line line a) ∙ told-told (is_ready_line line) (announces lines) a

pub announces-append :
    (lines more : List Bytes) → announces (lines ++ more) ≡ (announces lines || announces more)
announces-append [] more = refl
announces-append (line ∷ lines) more = ground (arith, announces-append lines more)

-- What the handling of output that continues the unfinished line to `text` makes of the state.
pub record Handled (text : Bytes) (a end : Agent) : Type 0 where
  pub buffer : end.agent_output_buffer ≡ (split_lines text).1
  pub flags : shared end ≡ told (announces (split_lines text).0) (shared a)

pub handle_daemon_output_lem :
    (chunk : Bytes) (a : Agent)
    → (end : Agent) × (handle_daemon_output chunk a ≡ some end)
      × Handled (a.agent_output_buffer ++ chunk) a end
unfolding handle_daemon_output
handle_daemon_output_lem chunk a =
    let text = a.agent_output_buffer ++ chunk in
    let (end, start, shown, found, rest) =
      for_newlines_lem handle_line shared see_line text a handle_line-DoesLine in
    (
      record end { agent_output_buffer = drop start text },
      rw found,
      record { buffer = rest; flags = shown ∙ visit-announces (split_lines text).0 (shared a) },
    )

-- The chunks one after the other.
abbrev pub handle_chunks : List Bytes → Agent → Option Agent
handle_chunks [] a = some a
handle_chunks (chunk ∷ chunks) a = elim (handle_daemon_output chunk a) [
  | none ↦ none
  | some next ↦ handle_chunks chunks next
]

abbrev pub concat : List Bytes → Bytes
concat [] = []
concat (chunk ∷ chunks) = chunk ++ concat chunks

Handled-then :
    (text more : Bytes) (a mid end : Agent)
    → Handled text a mid
    → Handled (mid.agent_output_buffer ++ more) mid end
    → Handled (text ++ more) a end
Handled-then text more a mid end h k =
    let first = (split_lines text).0 in
    let second = (split_lines (mid.agent_output_buffer ++ more)).0 in
    let appended = split_lines-append text more in
    let buffer_same = ap (λ (b : Bytes). split_lines (b ++ more)) h.buffer in
    let both : (announces first || announces second) ≡ announces (split_lines (text ++ more)).0 =
      rw (appended, buffer_same)
        (sym (announces-append first (split_lines ((split_lines text).1 ++ more)).0)) in
    record {
      buffer = k.buffer ∙ ap (λ p. p.1) buffer_same ∙ sym (ap (λ p. p.1) appended);
      flags =
          k.flags
          ∙ ap (told (announces second)) h.flags
          ∙ told-told (announces first) (announces second) (shared a)
          ∙ ap (λ b. told b (shared a)) both;
    }

handle_chunks-Handled :
    (chunks : List Bytes) (a : Agent)
    → Lacks newline a.agent_output_buffer
    → (end : Agent) × (handle_chunks chunks a ≡ some end)
      × Handled (a.agent_output_buffer ++ concat chunks) a end
handle_chunks-Handled [] a h =
    let whole = split_lines-rest a.agent_output_buffer h in
    (
      a,
      refl,
      record {
        buffer = rw (append-nil a.agent_output_buffer, whole);
        flags = rw (append-nil a.agent_output_buffer, whole);
      },
    )
handle_chunks-Handled (chunk ∷ chunks) a h =
    let (mid, first, handled) = handle_daemon_output_lem chunk a in
    let lacks : Lacks newline mid.agent_output_buffer =
      rw handled.buffer (split_lines-AreLines (a.agent_output_buffer ++ chunk)).1 in
    let (end, others, more) = handle_chunks-Handled chunks mid lacks in
    (
      end,
      rw (handle_chunks, first) others,
      rw (← append_assoc a.agent_output_buffer chunk (concat chunks))
          (Handled-then (a.agent_output_buffer ++ chunk) (concat chunks) a mid end handled more),
    )

-- However the output of the daemon is cut into chunks, handling them in turn ends with the bytes
-- behind the last newline in the buffer, and with the ready flags set exactly if a complete line
-- of the whole output starts with the ready message.
pub handle_daemon_output_chunks :
    (chunks : List Bytes)
    → let cut = split_lines (concat chunks) in
      (end : Agent) × (handle_chunks chunks new_agent ≡ some end)
      × (end.agent_output_buffer ≡ cut.1)
      × (end.agent_ready ≡ announces cut.0)
      × (end.agent_ready_notified ≡ announces cut.0)
handle_daemon_output_chunks chunks =
    let (end, found, handled) = handle_chunks-Handled chunks new_agent (unfold index_of in refl) in
    (
      end,
      found,
      handled.buffer,
      ap (λ a. a.agent_ready) handled.flags
          ∙ told_ready (announces (split_lines (concat chunks)).0),
      ap (λ a. a.agent_ready_notified) handled.flags
          ∙ told_notified (announces (split_lines (concat chunks)).0),
    )
  where
    told_ready : (b : Bool) → (told b (shared new_agent)).agent_ready ≡ b
    told_ready true = refl
    told_ready false = refl

    told_notified : (b : Bool) → (told b (shared new_agent)).agent_ready_notified ≡ b
    told_notified true = refl
    told_notified false = refl
