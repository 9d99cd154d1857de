-- ===== src/Silan/Refine/Waiting.antt =====
-- The commands that have an answer: how output_silan_send_cmd waits for it.
use gmrender_resurrect_silan.Base.{
  ℕ, zero, suc, ◌+◌, ◌≤◌, ◌<◌, ◌≡◌, ap, ◌∙◌, Bool, true, false, Option, some, Text, leb, Bool-cases,
  inl, inr, if◌then◌else◌, arith,
}
use gmrender_resurrect_silan.Base.Int.{ℤ, pos, minus_one}
use gmrender_resurrect_silan.Silan.Model.{Silan, Ipc, has}
use gmrender_resurrect_silan.Silan.Commands.{
  await, send_cmd, post, answer_bit, wait_answer, recv_retry, sleep,
}

module _ ⦃ipc : Ipc⦄ where
  -- The state after some rounds of waiting.
  abbrev pub after : ℕ → Silan → Silan
  after zero s = s
  after (suc k) s = after k (sleep s)

  -- How a loop of at most `rounds` rounds ends: with the bit clear, or with no round left.
  pub record IsWaited (bit rounds cnt : ℕ) (s : Silan) : Type 0 where
    pub waited : ℕ
    pub within : waited ≤ rounds
    pub runs : wait_answer bit rounds cnt s ≡ (cnt + waited, after waited s)
    pub until : (j : ℕ) → j < waited → has (after j s) bit ≡ true
    pub answered : waited < rounds → has (after waited s) bit ≡ false

  earlier :
      (bit k : ℕ) (s : Silan)
      → has s bit ≡ true
      → ((j : ℕ) → j < k → has (after j (sleep s)) bit ≡ true)
      → (j : ℕ) → j < suc k
      → has (after j s) bit ≡ true
  earlier bit k s e f zero h = e
  earlier bit k s e f (suc j) h = f j (omega (arith, h))

  -- What follows a message that msgsnd takes.
  goes-on :
      (accepted : Bool) (bit : Option ℕ) (b : ℕ) (s : Silan) (r : ℤ × Silan)
      → accepted ≡ true
      → bit ≡ some b
      → await (some b) s ≡ r
      → (if accepted then await bit s else (minus_one, s)) ≡ r
  goes-on accepted bit b s r a e w = rw (a, e) w

  wait_answer-IsWaited : (bit rounds cnt : ℕ) (s : Silan) → IsWaited bit rounds cnt s
  unfolding wait_answer
  wait_answer-IsWaited bit zero cnt s = record {
    waited = 0;
    within = omega arith;
    runs = ap (λ n. (n, s)) (omega arith);
    until = λ j h. elim h [ ];
    answered = λ h. elim h [ ];
  }
  wait_answer-IsWaited bit (suc rounds) cnt s = elim (Bool-cases (has s bit)) [
    | inr e ↦ record {
      waited = 0;
      within = omega arith;
      runs = rw (wait_answer, e) (ap (λ n. (n, s)) (omega arith));
      until = λ j h. elim h [ ];
      answered = λ _. e;
    }
    | inl e ↦
        let w = wait_answer-IsWaited bit rounds (cnt + 1) (sleep s) in
        record {
          waited = suc w.waited;
          within = omega (arith, w.within);
          runs =
              rw (wait_answer, e)
                (w.runs ∙ ap (λ (n : ℕ). (n, after w.waited (sleep s))) (omega arith));
          until = earlier bit w.waited s e w.until;
          answered = λ h. w.answered (omega (arith, h));
        }
  ]

  -- A command whose answer is awaited, and that msgsnd takes, waits `k` rounds, at most 10: while the
  -- bit of the answer is set, it goes on; it stops before 10 rounds only if the bit is clear. The
  -- result is 0 for fewer than 10 rounds. For 10 it is -1, even if the last of them brought the
  -- answer.
  pub send_cmd-waits :
      (cmd bit : ℕ) (param : ℤ) (data_text : Option Text) (s : Silan)
      → answer_bit cmd ≡ some bit
      → (post cmd param data_text s).0 ≡ true
      → (k : ℕ) × (k ≤ 10)
        × (send_cmd cmd param data_text s
            ≡ (if leb 10 k then minus_one else pos 0, after k (post cmd param data_text s).1))
        × ((j : ℕ) → j < k → has (after j (post cmd param data_text s).1) bit ≡ true)
        × (k < 10 → has (after k (post cmd param data_text s).1) bit ≡ false)
  unfolding send_cmd await
  send_cmd-waits cmd bit param data_text s e taken =
      let t = (post cmd param data_text s).1 in
      let w = wait_answer-IsWaited bit recv_retry 0 t in
      let waits : await (some bit) t
          ≡ (if leb 10 w.waited then minus_one else pos 0, after w.waited t) =
        ap (λ (r : ℕ × Silan). (if leb recv_retry r.0 then minus_one else pos 0, r.1))
          (w.runs ∙ ap (λ (n : ℕ). (n, after w.waited t)) (omega arith)) in
      (w.waited, w.within, goes-on _ (answer_bit cmd) bit t _ taken e waits, w.until, w.answered)
