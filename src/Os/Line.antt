-- ===== src/Os/Line.antt =====
-- A connection that carries at most eight bytes at a time and never waits.
use shp.Base.{
  ℕ, suc, ◌≡◌, refl, sym, ap, ◌∙◌, pos, some, List, ◌++◌, length, length-map, map, take, drop,
  take-take, take_all, arith, length-take, append-nil, least, least_bounded, least_pos,
  nil_of_length, take-append-drop, take_some,
}
use shp.Memory.{Memory}
use shp.Memory.Bytes.{byte, map-byte-IsBytes}
use mathlib.Core.List.{map-append}
use shp.Os.{Os}
use shp.Os.Laws.{SendLaws, RecvLaws, IsPrompt, IsBytewise}

pub record Line : Type 0 where
  pub outgoing : Memory
  pub incoming : List ℕ

abbrev pub eight_at_a_time : Os
eight_at_a_time = record {
  World = Line;
  socket = λ w. (pos 3, w);
  gethostbyname = λ name w. (some 1, w);
  connect = λ fd address port w. (pos 0, w);
  set_reuse = λ fd w. (pos 0, w);
  bind = λ fd port w. (pos 0, w);
  listen = λ fd backlog w. (pos 0, w);
  accept = λ fd w. (pos 4, w);
  get_flags = λ fd w. (pos 2, w);
  set_flags = λ fd flags w. (pos 0, w);
  select_write = λ fd limit w. ((pos 1, limit), w);
  select_read = λ fd limit w. ((pos 1, limit), w);
  send = λ fd bytes w.
      (pos (length (take 8 bytes)), record w { outgoing = w.outgoing ++ take 8 bytes });
  recv = λ fd n w. (
    some (map byte (take (least 8 n) w.incoming)),
    record w { incoming = drop (least 8 n) w.incoming },
  );
  close = λ fd w. w;
  sleep = λ seconds w. w;
}

abbrev pub eight_at_a_time-SendLaws : SendLaws eight_at_a_time
eight_at_a_time-SendLaws = record {
  outgoing = λ w fd. w.outgoing;
  select_write-outgoing = λ fd limit w. refl;
  send_some = λ fd bytes w k e.
      let same : length (take 8 bytes) ≡ suc k = cc in
      (
        omega (arith, length-take 8 bytes),
        ap (◌++◌ w.outgoing) (
            sym (take_all (take 8 bytes) (suc k) (omega arith))
            ∙ take-take (suc k) 8 bytes (omega (arith, length-take 8 bytes))),
      );
  send_zero = λ fd bytes w e.
      let empty : length (take 8 bytes) ≡ 0 = cc in
      ap (◌++◌ w.outgoing) (nil_of_length (take 8 bytes) empty) ∙ append-nil w.outgoing;
  send_error = λ fd bytes w e. cc;
}

abbrev pub eight_at_a_time-RecvLaws : RecvLaws eight_at_a_time
eight_at_a_time-RecvLaws = record {
  incoming = λ w fd. map byte w.incoming;
  select_read-incoming = λ fd limit w. refl;
  recv_some = λ fd n w bytes e.
      let same : map byte (take (least 8 n) w.incoming) ≡ bytes = cc in
      (
        omega (
          arith,
          length-map {0, 0} byte (take (least 8 n) w.incoming),
          length-take (least 8 n) w.incoming,
          ap length same,
          least_bounded 8 n,
        ),
        rw (← same) (
            ap (map byte) (sym (take-append-drop (least 8 n) w.incoming))
            ∙ map-append byte (take (least 8 n) w.incoming) (drop (least 8 n) w.incoming)),
      );
  recv_none = λ fd n w e. cc;
}

pub eight_at_a_time-IsPrompt : IsPrompt eight_at_a_time eight_at_a_time-RecvLaws
eight_at_a_time-IsPrompt = record {
  select_ready = λ fd limit w h. refl;
  recv_ready = λ fd n w h more.
      let (b, bs, e) =
        take_some (least 8 n) w.incoming (least_pos n h)
          (omega (arith, length-map {0, 0} byte w.incoming)) in
      (byte b, map byte bs, ap (λ ns. some (map byte ns)) e);
}

pub eight_at_a_time-IsBytewise : IsBytewise eight_at_a_time eight_at_a_time-RecvLaws
eight_at_a_time-IsBytewise = record { incoming_bytes = λ fd w. map-byte-IsBytes w.incoming }
