-- ===== src/Socket/Send.antt =====
-- `send_data` puts the first bytes of the buffer on the connection, in order and once each; all of
-- them if it answers `ok`.
use shp.Base.{
  ℕ, zero, suc, ◌+◌, ◌-◌, ◌%◌, ◌≤◌, ◌<◌, ◌≡◌, refl, sym, ap, ◌∙◌, ℤ, pos, negsuc, ◌++◌, length,
  length-take, take, drop, done, true, false, ◌⊎◌, Bool-cases, inl, inr, arith, append-nil,
  append_assoc, length-drop, ltb, ◌&&◌, take-take, take-append-take-drop,
}
use shp.Memory.{Memory, u32_mod, IsU32}
use shp.ErrorCodes.{ErrorCode, is_ok, ok, eq_of_is_ok, system_error, transport_error}
use shp.Memory.Copy.{read_at-front}
use shp.Os.{Os}
use shp.Os.Laws.{SendLaws}
use shp.Os.Actions.{Io}
use shp.Socket.{send_once, send_round, send_loop, send_data, is_settable, limit_of}

module _ (os : Os) (laws : SendLaws os) where
  open os use {World}
  open laws use {outgoing}

  -- A part of `send_data` that ends, and has sent the first `n` bytes of the buffer.
  record Sends {A : Type 0} (fd : ℤ) (buffer : Memory) (total : ℕ) (w : World) (run : Io World A)
      (code : A → ErrorCode) (count : A → ℕ) : Type 0 where
    result : A
    after : World
    runs : run w ≡ done (result, after)
    bounded : count result ≤ total
    appended : outgoing after fd ≡ outgoing w fd ++ take (count result) buffer
    progress : is_ok (code result) ≡ true → 0 < count result

  send_once-Sends :
      (fd : ℤ) (buffer : Memory) (total : ℕ) (w : World)
      → total ≤ length buffer
      → Sends fd buffer total w (send_once os fd buffer total) (λ r. r.0) (λ r. r.1)
  unfolding send_once
  send_once-Sends fd buffer total w h = sent (os.send fd (take total buffer) w).0 refl
    where
      sent :
          (res : ℤ)
          → (os.send fd (take total buffer) w).0 ≡ res
          → Sends fd buffer total w (send_once os fd buffer total) (λ r. r.0) (λ r. r.1)
      sent (negsuc n) e = record {
        result = (transport_error, 0);
        after = (os.send fd (take total buffer) w).1;
        runs = rw (read_at-front buffer total h, e);
        bounded = omega arith;
        appended = laws.send_error fd (take total buffer) w (rw e) ∙ sym (append-nil _);
        progress = λ p. cc;
      }
      sent (pos zero) e = record {
        result = (transport_error, 0);
        after = (os.send fd (take total buffer) w).1;
        runs = rw (read_at-front buffer total h, e);
        bounded = omega arith;
        appended = laws.send_zero fd (take total buffer) w e ∙ sym (append-nil _);
        progress = λ p. cc;
      }
      sent (pos (suc k)) e =
          let taken : suc k ≤ total =
            omega
              (arith, (laws.send_some fd (take total buffer) w k e).0, length-take total buffer) in
          record {
            result = (ok, suc k);
            after = (os.send fd (take total buffer) w).1;
            runs = rw (read_at-front buffer total h, e);
            bounded = taken;
            appended =
                (laws.send_some fd (take total buffer) w k e).1
                ∙ ap (◌++◌ (outgoing w fd)) (take-take (suc k) total buffer taken);
            progress = λ p. omega arith;
          }

  send_round-Sends :
      (fd : ℤ) (buffer : Memory) (total limit : ℕ) (w : World)
      → total ≤ length buffer
      → Sends fd buffer total w (send_round os fd buffer total limit) (λ r. r.0.0) (λ r. r.0.1)
  unfolding send_round
  send_round-Sends fd buffer total limit w h = selected (os.select_write fd limit w).0.0 refl
    where
      w1 : World
      w1 = (os.select_write fd limit w).1

      same : outgoing w1 fd ≡ outgoing w fd
      same = laws.select_write-outgoing fd limit w

      selected :
          (res : ℤ)
          → (os.select_write fd limit w).0.0 ≡ res
          → Sends fd buffer total w (send_round os fd buffer total limit) (λ r. r.0.0) (λ r. r.0.1)
      selected (negsuc n) e = record {
        result = ((system_error, 0), (os.select_write fd limit w).0.1);
        after = w1;
        runs = rw e;
        bounded = omega arith;
        appended = same ∙ sym (append-nil _);
        progress = λ p. cc;
      }
      selected (pos zero) e = record {
        result = ((transport_error, 0), (os.select_write fd limit w).0.1);
        after = w1;
        runs = rw e;
        bounded = omega arith;
        appended = same ∙ sym (append-nil _);
        progress = λ p. cc;
      }
      selected (pos (suc n)) e =
          let s = send_once-Sends fd buffer total w1 h in
          record {
            result = (s.result, (os.select_write fd limit w).0.1);
            after = s.after;
            runs = rw (e, s.runs);
            bounded = s.bounded;
            appended = s.appended ∙ ap (λ o. o ++ take (s.result.1) buffer) same;
            progress = s.progress;
          }

  -- A run of the whole loop: it ends, with the first `count` bytes on the connection, which are all
  -- of them if the result is `ok`.
  pub record Delivers (fd : ℤ) (buffer : Memory) (total : ℕ) (w : World) (run : Io World ErrorCode)
      : Type 0 where
    pub result : ErrorCode
    pub after : World
    pub count : ℕ
    pub runs : run w ≡ done (result, after)
    pub bounded : count ≤ total
    pub appended : outgoing after fd ≡ outgoing w fd ++ take count buffer
    pub complete : result ≡ ok → count ≡ total

  send_loop-Delivers :
      (fuel : ℕ) (fd : ℤ) (buffer : Memory) (total limit : ℕ) (w : World)
      → total < fuel
      → total ≤ length buffer
      → IsU32 total
      → Delivers fd buffer total w (send_loop os fuel fd buffer total limit)
  unfolding send_loop
  send_loop-Delivers zero fd buffer total limit w lt h word = absurd (omega arith)
  send_loop-Delivers (suc fuel) fd buffer total limit w lt h word =
      let s = send_round-Sends fd buffer total limit w h in
      let k = s.result.0.1 in
      let total' = (total + u32_mod - k) % u32_mod in
      elim (Bool-cases (is_ok s.result.0.0 && ltb 0 total')) [
        | inr last ↦ record {
          result = s.result.0.0;
          after = s.after;
          count = k;
          runs = rw (s.runs, last);
          bounded = s.bounded;
          appended = s.appended;
          complete = λ e. ground (arith, s.bounded, e, last);
        }
        | inl more ↦
            let sent : 0 < k = s.progress (ground (arith, more)) in
            let left : total' ≡ total - k = omega (arith, s.bounded) in
            let d =
              send_loop-Delivers fuel fd (drop k buffer) total' s.result.1 s.after
                (omega (arith, s.bounded)) (omega (arith, length-drop k buffer)) (omega arith) in
            record {
              result = d.result;
              after = d.after;
              count = k + d.count;
              runs = rw (s.runs, more) d.runs;
              bounded = omega (arith, d.bounded, s.bounded);
              appended =
                  d.appended
                  ∙ ap (λ o. o ++ take d.count (drop k buffer)) s.appended
                  ∙ append_assoc (outgoing w fd) (take k buffer) (take d.count (drop k buffer))
                  ∙ ap (◌++◌ (outgoing w fd)) (take-append-take-drop k d.count buffer);
              complete = λ e. omega (arith, d.complete e, s.bounded);
            }
      ]

  -- `send_data` ends, and all is sent if the result is `ok`.
  pub send_data-Delivers :
      (fd : ℤ) (buffer : Memory) (total timeout : ℕ) (w : World)
      → is_settable fd ≡ true
      → total ≤ length buffer
      → IsU32 total
      → Delivers fd buffer total w (send_data os fd buffer total timeout)
  unfolding send_data
  send_data-Delivers fd buffer total timeout w open_fd h word =
      let d =
        send_loop-Delivers (suc total) fd buffer total (limit_of timeout) w (omega arith) h word in
      record {
        result = d.result;
        after = d.after;
        count = d.count;
        runs = rw open_fd d.runs;
        bounded = d.bounded;
        appended = d.appended;
        complete = d.complete;
      }

  -- What a caller sees of it.
  pub record SendsFront (fd : ℤ) (buffer : Memory) (total : ℕ) (w : World)
      (run : Io World ErrorCode) : Type 0 where
    pub result : ErrorCode
    pub after : World
    pub count : ℕ
    pub runs : run w ≡ done (result, after)
    pub bounded : count ≤ total
    pub appended : outgoing after fd ≡ outgoing w fd ++ take count buffer
    pub complete : (is_ok result ≡ false) ⊎ (count ≡ total)

  pub Delivers-SendsFront :
      (fd : ℤ) (buffer : Memory) (total : ℕ) (w : World) (run : Io World ErrorCode)
      → Delivers fd buffer total w run
      → SendsFront fd buffer total w run
  Delivers-SendsFront fd buffer total w run d = record {
    result = d.result;
    after = d.after;
    count = d.count;
    runs = d.runs;
    bounded = d.bounded;
    appended = d.appended;
    complete = elim (Bool-cases (is_ok d.result)) [
      | inl success ↦ inr (d.complete (eq_of_is_ok d.result success))
      | inr failure ↦ inl failure
    ];
  }

  -- On an open descriptor, `send_data` ends. Whatever its result, the connection carries the first
  -- `count` bytes of the buffer behind what was sent before; the result is a failure, or these are
  -- all the bytes.
  pub send_data-SendsFront :
      (fd : ℤ) (buffer : Memory) (total timeout : ℕ) (w : World)
      → is_settable fd ≡ true
      → total ≤ length buffer
      → IsU32 total
      → SendsFront fd buffer total w (send_data os fd buffer total timeout)
  send_data-SendsFront fd buffer total timeout w open_fd h word =
      Delivers-SendsFront fd buffer total w (send_data os fd buffer total timeout)
        (send_data-Delivers fd buffer total timeout w open_fd h word)
