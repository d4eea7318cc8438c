-- ===== src/Tests/Websockets.antt =====
-- A hub with two clients of one instance, of which one is not read.
use proctssor.Prelude.{
  ◌≡◌, eq_iff, refl, true, false, [], ◌∷◌, lookup, none, some, if◌then◌else◌, arith,
}
use proctssor.Websocket.Sets.{eqb}
use proctssor.Websocket.{
  Hub, members, broadcast, run, registers, broadcasts, unregisters, receives, unsubscribe, ping,
  get_client_count,
}
use proctssor.Websocket.Broadcast.{Spread}
use proctssor.Websocket.Safety.{IsSafe, broadcast_lem}
use proctssor.Websocket.Runs.{run-IsSafe, unsubscribe_panics}

-- Client 1 looks at the order, every other one at the bill.
abbrev office : Hub
office = record {
  clients = ("order", 1 ∷ []) ∷ ("bill", 2 ∷ 3 ∷ []) ∷ [];
  client = λ j. record {
    instance_id = if eqb j 1 then "order" else "bill";
    send = [];
    closed = false;
    connected = true;
  };
}

office-IsSafe : IsSafe office
unfolding lookup
office-IsSafe = record {
  registered = λ k j m. ground (arith, m, eq_iff "order" k, eq_iff "bill" k);
  distinct = λ k. ground (arith, eq_iff "order" k, eq_iff "bill" k);
  bounded = λ j. ground arith;
}

broadcast_lem_example :
    (h : Hub) × (broadcast office "bill" "paid" ≡ some h)
    × Spread "bill" "paid" office (members office "bill") h
    × IsSafe h
broadcast_lem_example = broadcast_lem office "bill" "paid" office-IsSafe

run-IsSafe_example :
    (h : Hub) × (run office (registers 4 ∷ broadcasts "bill" "paid" ∷ unregisters 2 ∷ []) ≡ some h)
    × IsSafe h
run-IsSafe_example =
    run-IsSafe office (registers 4 ∷ broadcasts "bill" "paid" ∷ unregisters 2 ∷ []) office-IsSafe
      (refl, λ h e. (tt, λ h e. (tt, λ h e. tt)))

unsubscribe_panics_example :
    run office (receives 1 unsubscribe "" ∷ unregisters 1 ∷ receives 1 ping "pong" ∷ []) ≡ none
unfolding lookup
unsubscribe_panics_example =
    unsubscribe_panics office 1 ping "" "pong" [] office-IsSafe refl refl refl

counts : get_client_count office "bill" ≡ 2
unfolding get_client_count lookup
counts = refl
