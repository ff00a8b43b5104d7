-- ===== src/Socket/Recv.antt =====
-- `recv_data` takes bytes off the connection, in order and once each; as many as were asked for if
-- it answers `ok`, and it does if they have arrived.
use shp.Base.{
  ℕ, zero, suc, ◌+◌, ◌-◌, ◌%◌, ◌≤◌, ◌<◌, ◌≡◌, refl, sym, ap, ◌∙◌, ℤ, pos, negsuc, List, [], ◌∷◌,
  ◌++◌, some, none, Option, length, done, true, false, ◌⊎◌, Bool-cases, inl, inr, arith,
  append_assoc, append_split, ap₂, length-append, ltb, ◌&&◌,
}
use shp.Memory.{u32_mod, IsU32}
use shp.ErrorCodes.{ErrorCode, is_ok, ok, eq_of_is_ok, system_error, transport_error}
use shp.Os.{Os}
use shp.Os.Laws.{RecvLaws, IsPrompt}
use shp.Os.Actions.{Io}
use shp.Socket.{recv_once, recv_round, recv_loop, recv_data, is_settable, limit_of}

module _ (os : Os) (laws : RecvLaws os) where
  open os use {World}
  open laws use {incoming}

  -- A part of `recv_data` that ends, and has taken some bytes.
  record Takes {A : Type 0} (fd : ℤ) (wanted : ℕ) (w : World) (run : Io World A)
      (code : A → ErrorCode) (bytes : A → List ℕ) : Type 0 where
    result : A
    after : World
    runs : run w ≡ done (result, after)
    bounded : length (bytes result) ≤ wanted
    taken : incoming w fd ≡ bytes result ++ incoming after fd
    progress : is_ok (code result) ≡ true → 0 < length (bytes result)
    ready : IsPrompt os laws → 0 < wanted → 0 < length (incoming w fd) → code result ≡ ok

  recv_once-Takes :
      (fd : ℤ) (wanted : ℕ) (w : World)
      → Takes fd wanted w (recv_once os fd wanted) (λ r. r.0) (λ r. r.1)
  unfolding recv_once
  recv_once-Takes fd wanted w = received (os.recv fd wanted w).0 refl
    where
      received :
          (res : Option (List ℕ))
          → (os.recv fd wanted w).0 ≡ res
          → Takes fd wanted w (recv_once os fd wanted) (λ r. r.0) (λ r. r.1)
      received none e = record {
        result = (transport_error, []);
        after = (os.recv fd wanted w).1;
        runs = rw e;
        bounded = omega arith;
        taken = sym (laws.recv_none fd wanted w e);
        progress = λ p. cc;
        ready = λ p h l. cc ((p.recv_ready fd wanted w h l).2);
      }
      received (some []) e = record {
        result = (transport_error, []);
        after = (os.recv fd wanted w).1;
        runs = rw e;
        bounded = omega arith;
        taken = (laws.recv_some fd wanted w [] e).1;
        progress = λ p. cc;
        ready = λ p h l. cc ((p.recv_ready fd wanted w h l).2);
      }
      received (some (b ∷ bytes)) e = record {
        result = (ok, b ∷ bytes);
        after = (os.recv fd wanted w).1;
        runs = rw e;
        bounded = (laws.recv_some fd wanted w (b ∷ bytes) e).0;
        taken = (laws.recv_some fd wanted w (b ∷ bytes) e).1;
        progress = λ p. omega arith;
        ready = λ p h l. refl;
      }

  recv_round-Takes :
      (fd : ℤ) (wanted limit : ℕ) (w : World)
      → Takes fd wanted w (recv_round os fd wanted limit) (λ r. r.0.0) (λ r. r.0.1)
  unfolding recv_round
  recv_round-Takes fd wanted limit w = selected (os.select_read fd limit w).0.0 refl
    where
      w1 : World
      w1 = (os.select_read fd limit w).1

      same : incoming w1 fd ≡ incoming w fd
      same = laws.select_read-incoming fd limit w

      selected :
          (res : ℤ)
          → (os.select_read fd limit w).0.0 ≡ res
          → Takes fd wanted w (recv_round os fd wanted limit) (λ r. r.0.0) (λ r. r.0.1)
      selected (negsuc n) e = record {
        result = ((system_error, []), (os.select_read fd limit w).0.1);
        after = w1;
        runs = rw e;
        bounded = omega arith;
        taken = sym same;
        progress = λ p. cc;
        ready = λ p h l. cc (p.select_ready fd limit w l);
      }
      selected (pos zero) e = record {
        result = ((transport_error, []), (os.select_read fd limit w).0.1);
        after = w1;
        runs = rw e;
        bounded = omega arith;
        taken = sym same;
        progress = λ p. cc;
        ready = λ p h l. ground (arith, e, p.select_ready fd limit w l);
      }
      selected (pos (suc n)) e =
          let s = recv_once-Takes fd wanted w1 in
          record {
            result = (s.result, (os.select_read fd limit w).0.1);
            after = s.after;
            runs = rw (e, s.runs);
            bounded = s.bounded;
            taken = sym same ∙ s.taken;
            progress = s.progress;
            ready = λ p h l. s.ready p h (rw same l);
          }

  -- A run of the whole loop behind the bytes received before it: it ends, and the bytes that it adds
  -- are the next on the connection. It answers `ok` only with all that is wanted, and if they have
  -- arrived it does.
  pub record Receives (fd : ℤ) (to_receive : ℕ) (received : List ℕ) (w : World)
      (run : Io World (ErrorCode × List ℕ)) : Type 0 where
    pub result : ErrorCode
    pub bytes : List ℕ
    pub after : World
    pub runs : run w ≡ done ((result, received ++ bytes), after)
    pub bounded : length received + length bytes ≤ to_receive
    pub taken : incoming w fd ≡ bytes ++ incoming after fd
    pub complete : result ≡ ok → length received + length bytes ≡ to_receive
    pub ready :
        IsPrompt os laws
        → length received < to_receive
        → to_receive ≤ length received + length (incoming w fd)
        → result ≡ ok

  recv_loop-Receives :
      (fuel : ℕ) (fd : ℤ) (to_receive : ℕ) (received : List ℕ) (limit : ℕ) (w : World)
      → to_receive < fuel + length received
      → length received ≤ to_receive
      → IsU32 to_receive
      → Receives fd to_receive received w (recv_loop os fuel fd to_receive received limit)
  unfolding recv_loop
  recv_loop-Receives zero fd to_receive received limit w lt h word = absurd (omega arith)
  recv_loop-Receives (suc fuel) fd to_receive received limit w lt h word =
      let wanted = (to_receive + u32_mod - length received) % u32_mod in
      let room : wanted ≡ to_receive - length received = omega arith in
      let s = recv_round-Takes fd wanted limit w in
      let new = s.result.0.1 in
      let all : length (received ++ new) ≡ length received + length new =
        length-append received new in
      elim (Bool-cases (is_ok s.result.0.0 && ltb (length (received ++ new)) to_receive)) [
        | inr last ↦ record {
          result = s.result.0.0;
          bytes = new;
          after = s.after;
          runs = rw (s.runs, last);
          bounded = omega (arith, s.bounded);
          taken = s.taken;
          complete = λ e. ground (arith, s.bounded, e, last);
          ready = λ p l enough. s.ready p (omega arith) (omega arith);
        }
        | inl more ↦
            let some_new : 0 < length new = s.progress (ground (arith, more)) in
            let d =
              recv_loop-Receives fuel fd to_receive (received ++ new) s.result.1 s.after
                (omega arith) (omega (arith, s.bounded)) word in
            record {
              result = d.result;
              bytes = new ++ d.bytes;
              after = d.after;
              runs =
                  rw (s.runs, more)
                    (d.runs
                      ∙ ap (λ b. done ((d.result, b), d.after))
                          (append_assoc received new d.bytes));
              bounded = omega (arith, d.bounded, length-append new d.bytes);
              taken =
                  s.taken
                  ∙ ap (◌++◌ new) d.taken
                  ∙ sym (append_assoc new d.bytes (incoming d.after fd));
              complete = λ e. omega (arith, d.complete e, length-append new d.bytes);
              ready = λ p l enough.
                  d.ready p (ground (arith, more))
                    (omega (arith, ap length s.taken, length-append new (incoming s.after fd)));
            }
      ]

  -- `recv_data` ends.
  pub recv_data-Receives :
      (fd : ℤ) (to_receive timeout : ℕ) (w : World)
      → is_settable fd ≡ true
      → IsU32 to_receive
      → Receives fd to_receive [] w (recv_data os fd to_receive timeout)
  unfolding recv_data
  recv_data-Receives fd to_receive timeout w open_fd word =
      let d =
        recv_loop-Receives (suc to_receive) fd to_receive [] (limit_of timeout) w (omega arith)
          (omega arith) word in
      record {
        result = d.result;
        bytes = d.bytes;
        after = d.after;
        runs = rw open_fd d.runs;
        bounded = d.bounded;
        taken = d.taken;
        complete = d.complete;
        ready = d.ready;
      }

  -- On an open descriptor of a prompt connection, bytes that have arrived are received exactly and in
  -- one call of `recv_data`, with the result `ok`; what follows them stays on the connection.
  pub recv_data_arrived :
      (fd : ℤ) (timeout : ℕ) (body rest : List ℕ) (w : World)
      → IsPrompt os laws
      → is_settable fd ≡ true
      → 0 < length body
      → IsU32 (length body)
      → incoming w fd ≡ body ++ rest
      → (w' : World) × (recv_data os fd (length body) timeout w ≡ done ((ok, body), w'))
        × (incoming w' fd ≡ rest)
  recv_data_arrived fd timeout body rest w prompt open_fd some_body word e =
      let d = recv_data-Receives fd (length body) timeout w open_fd word in
      let success : d.result ≡ ok =
        d.ready prompt some_body (omega (arith, ap length e, length-append body rest)) in
      let (same, after) =
        append_split d.bytes (incoming d.after fd) body rest (sym d.taken ∙ e)
          (omega (arith, d.complete success)) in
      (d.after, d.runs ∙ ap₂ (λ r b. done ((r, b), d.after)) success same, after)

  -- What a caller sees of `recv_data`.
  pub record TakesFront (fd : ℤ) (to_receive : ℕ) (w : World) (run : Io World (ErrorCode × List ℕ))
      : Type 0 where
    pub result : ErrorCode
    pub bytes : List ℕ
    pub after : World
    pub runs : run w ≡ done ((result, bytes), after)
    pub bounded : length bytes ≤ to_receive
    pub taken : incoming w fd ≡ bytes ++ incoming after fd
    pub complete : (is_ok result ≡ false) ⊎ (length bytes ≡ to_receive)

  -- On an open descriptor, `recv_data` ends with bytes that are the next on the connection: none is
  -- lost, at most as many as asked for are taken, and the result is a failure or these are all that
  -- were asked for.
  pub recv_data-TakesFront :
      (fd : ℤ) (to_receive timeout : ℕ) (w : World)
      → is_settable fd ≡ true
      → IsU32 to_receive
      → TakesFront fd to_receive w (recv_data os fd to_receive timeout)
  recv_data-TakesFront fd to_receive timeout w open_fd word =
      let d = recv_data-Receives fd to_receive timeout w open_fd word in
      record {
        result = d.result;
        bytes = d.bytes;
        after = d.after;
        runs = d.runs;
        bounded = omega (arith, d.bounded);
        taken = d.taken;
        complete = elim (Bool-cases (is_ok d.result)) [
          | inl success ↦ inr (omega (arith, d.complete (eq_of_is_ok d.result success)))
          | inr failure ↦ inl failure
        ];
      }
