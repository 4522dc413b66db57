-- ===== src/Core/RunLoop/Period.antt =====
-- What a protocol period of internal/core/runloop.go comes to: whom it signals, and how the identifiers
-- of the periods go on.
use eswim.Base.{
  ℕ, suc, ◌+◌, ◌*◌, ◌%◌, ◌<◌, ◌==◌, ◌≡◌, ◌≢◌, leb, length, refl, ap, ◌∙◌, Bool, false, ◌&&◌, ◌||◌,
  none, some, List, [], ◌∷◌, arith, if◌then◌else◌,
}
use eswim.Proto.Ip.{hash_zero}
use eswim.Proto.Node.{Node, hash}
use eswim.Proto.Message.{
  Message, bootstrap_request, bootstrap_response, bootstrap_ack, ping, pong, indirect_ping,
  indirect_pong, sync,
}
use eswim.Core.RunLoop.{
  Delegate, RunLoopPeriod, Settings, Happening, ping_timeout, incoming, changed, new_period,
  increment_id, make_cookie, start_period, signalled, synced, end_period, handle_message,
  wait_period, turn,
}

-- A message answers the probe of a period when it is a Pong or an IndirectPong that bears the
-- period's identifier and cookie.
abbrev pub answers : ℕ → ℕ → Message → Bool
answers id cookie (pong m) = m.period == id && m.cookie == cookie
answers id cookie (indirect_pong m) = m.period == id && m.cookie == cookie
answers id cookie _ = false

abbrev pub answered : {S : Type 0} → ℕ → ℕ → List (Happening S) → Bool
answered id cookie [] = false
answered id cookie (incoming m ∷ hs) = answers id cookie m || answered id cookie hs
answered id cookie (ping_timeout ∷ hs) = answered id cookie hs
answered id cookie (changed f ∷ hs) = answered id cookie hs

pub handle_message-answers :
    (m : Message) (r : RunLoopPeriod)
    → handle_message m r ≡ record r { acked = answers r.id r.cookie m || r.acked }
unfolding handle_message
handle_message-answers bootstrap_request r = refl
handle_message-answers bootstrap_response r = refl
handle_message-answers bootstrap_ack r = refl
handle_message-answers (ping m) r = refl
handle_message-answers (pong m) r = ground arith
handle_message-answers (indirect_ping m) r = refl
handle_message-answers (indirect_pong m) r = ground arith
handle_message-answers (sync m) r = refl

module _ {S : Type 0} (d : Delegate S) where
  -- While a period lasts, it becomes acknowledged exactly when one of the messages that come in answers
  -- its probe, and keeps its identifier, node and cookie.
  pub wait_period-answered :
      (hs : List (Happening S)) (r : RunLoopPeriod) (s : S)
      → (wait_period d hs r s).0 ≡ record r { acked = answered r.id r.cookie hs || r.acked }
  unfolding wait_period
  wait_period-answered [] r s = refl
  wait_period-answered (ping_timeout ∷ hs) r s = wait_period-answered hs r _
  wait_period-answered (incoming m ∷ hs) r s =
      ap (λ q. (wait_period d hs q s).0) (handle_message-answers m r)
      ∙ wait_period-answered hs _ s
      ∙ ground arith
  wait_period-answered (changed f ∷ hs) r s = wait_period-answered hs r (f s)

module _ {S : Type 0} (d : Delegate S) (settings : Settings) where
  -- The period that probes the node `n`, when `acked` tells whether an answer came.
  abbrev pub probing : ℕ → RunLoopPeriod → Node → Bool → RunLoopPeriod
  probing random r n acked = record {
    id = r.id;
    acked = acked;
    node = hash n;
    cookie = random % 65536;
    period_hash = random % 65536 + r.id * 65536;
  }

  abbrev acknowledged : Bool → RunLoopPeriod → RunLoopPeriod
  acknowledged acked q = record q { acked = acked }

  pub start_period-probing :
      (random : ℕ) (r : RunLoopPeriod) (s : S) (n : Node)
      → (d.next_probe_subject s).1 ≡ some n
      → (start_period d settings random r s).0 ≡ probing random r n false
  unfolding start_period make_cookie
  start_period-probing random r s n e = ground arith

  start_period-idle :
      (random : ℕ) (r : RunLoopPeriod) (s : S)
      → (d.next_probe_subject s).1 ≡ none
      → start_period d settings random r s
        ≡ (record r { acked = false; node = hash_zero }, (d.next_probe_subject s).0)
  unfolding start_period
  start_period-idle random r s e = ground arith

  end_period-probing :
      (random : ℕ) (r : RunLoopPeriod) (n : Node) (acked : Bool) (s : S)
      → hash n ≢ hash_zero
      → (end_period d settings (probing random r n acked) s).1
        ≡ synced d settings (increment_id r).id (
            d.process_expired_suspects r.id (
              if acked
              then d.signal_healthy_node (hash n) s
              else d.signal_suspect_node r.id (hash n) s))
  unfolding end_period signalled increment_id
  end_period-probing random r n acked s valid = ground arith

  end_period-idle :
      (r : RunLoopPeriod) (acked : Bool) (s : S)
      → (end_period d settings (record r { acked = acked; node = hash_zero }) s).1
        ≡ synced d settings (increment_id r).id (d.process_expired_suspects r.id s)
  unfolding end_period signalled increment_id
  end_period-idle r acked s = ground arith

  pub turn-probed :
      (random : ℕ) (hs : List (Happening S)) (r : RunLoopPeriod) (s : S) (n : Node)
      → (d.next_probe_subject s).1 ≡ some n
      → hash n ≢ hash_zero
      → let s' = (start_period d settings random r s).1 in
        let waited = (wait_period d hs (start_period d settings random r s).0 s').1 in
        (turn d settings random hs r s).1
        ≡ synced d settings (increment_id r).id (
            d.process_expired_suspects r.id (
              if answered r.id (random % 65536) hs
              then d.signal_healthy_node (hash n) waited
              else d.signal_suspect_node r.id (hash n) waited))
  unfolding turn
  turn-probed random hs r s n e valid =
      let (r', s') = start_period d settings random r s in
      let w = (wait_period d hs r' s').1 in
      let begun = start_period-probing random r s n e in
      let waited : (wait_period d hs r' s').0
          ≡ probing random r n (answered r.id (random % 65536) hs) =
        wait_period-answered d hs r' s'
        ∙ ap (λ q. acknowledged (answered q.id q.cookie hs || q.acked) q) begun
        ∙ ground arith in
      ap (λ q. (end_period d settings q w).1) waited ∙ end_period-probing random r n _ w valid

  -- A turn of the loop that finds nobody to probe signals no node: it only waits, has the
  -- expired suspects processed, and a full sync performed when the next identifier calls for
  -- one.
  pub turn-idle :
      (random : ℕ) (hs : List (Happening S)) (r : RunLoopPeriod) (s : S)
      → (d.next_probe_subject s).1 ≡ none
      → (turn d settings random hs r s).1
        ≡ synced d settings (increment_id r).id (
            d.process_expired_suspects r.id
              (wait_period d hs
                (start_period d settings random r s).0
                (d.next_probe_subject s).0).1)
  unfolding turn
  turn-idle random hs r s e =
      rw
        (
          start_period-idle random r s e,
          wait_period-answered d hs (record r { acked = false; node = hash_zero })
              (d.next_probe_subject s).0,
        )
        (end_period-idle r _ _)

  -- The turns of the loop, each with its random number and what happens during it.
  abbrev pub turns : List (ℕ × List (Happening S)) → RunLoopPeriod × S → RunLoopPeriod × S
  turns [] p = p
  turns (t ∷ ts) p = turns ts (turn d settings t.0 t.1 p.0 p.1)

  abbrev pub next_id : ℕ → ℕ
  next_id i = if leb 65535 (i + 1) then 0 else i + 1

  pub increment_id-id : (q : RunLoopPeriod) → (increment_id q).id ≡ next_id q.id
  unfolding increment_id
  increment_id-id q = ground arith

  pub start_period-id :
      (random : ℕ) (r : RunLoopPeriod) (s : S) → (start_period d settings random r s).0.id ≡ r.id
  unfolding start_period make_cookie
  start_period-id random r s = ground arith

  pub turn-id :
      (random : ℕ) (hs : List (Happening S)) (r : RunLoopPeriod) (s : S)
      → (turn d settings random hs r s).0.id ≡ next_id r.id
  unfolding turn end_period
  turn-id random hs r s =
      let (r', s') = start_period d settings random r s in
      increment_id-id (record ((wait_period d hs r' s').0) { node = hash_zero })
      ∙ ap (λ q. next_id q.id) (wait_period-answered d hs r' s')
      ∙ ap next_id (start_period-id random r s)

  turns-id :
      (ts : List (ℕ × List (Happening S))) (r : RunLoopPeriod) (s : S)
      → r.id < 65535
      → (turns ts (r, s)).0.id ≡ (r.id + length ts) % 65535
  turns-id [] r s h = omega arith
  turns-id (t ∷ ts) r s h =
      let e = turn-id t.0 t.1 r s in
      let below : next_id r.id < 65535 = ground arith in
      let next : (next_id r.id + length ts) % 65535 ≡ (r.id + suc (length ts)) % 65535 =
        ground arith in
      turns-id ts (turn d settings t.0 t.1 r s).0 (turn d settings t.0 t.1 r s).1 (rw (e) below)
      ∙ rw (e) next

  -- After any number of turns from the start, the identifier of the period is one more than
  -- that number, modulo 65535: the loop never uses the identifier 65535.
  pub turns-new_period :
      (ts : List (ℕ × List (Happening S))) (s : S)
      → (turns ts (new_period, s)).0.id ≡ suc (length ts) % 65535
  unfolding new_period
  turns-new_period ts s = turns-id ts new_period s (omega arith) ∙ ap (λ n. n % 65535) (omega arith)
