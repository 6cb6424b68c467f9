-- ===== src/Rfs/Retry.antt =====
-- The retry loops: they end, and with what.
use blockafile.Base.{
  ℕ, zero, suc, ◌+◌, ◌-◌, ◌≤◌, ◌<◌, ◌≡◌, refl, sym, subst, ◌⊎◌, inl, inr, Option, some, Bytes,
  arith,
}
use blockafile.Base.Result.{Result, ok, err}
use blockafile.Shared.{RfsMinerResponse, client_retry_count}
use blockafile.Rfs.{
  SendEvent, ReceiveEvent, received, read_failed, written, write_failed, RfsError,
  disconnected_error, Connection, send_rounds, receive_rounds, send_client_request,
  get_miner_response,
}

module _ (sending : ℕ → SendEvent) (miner_addr : Bytes) where
  -- A round from `c` on, and before the tenth, that writes the request, after failed writes only.
  abbrev pub Sends : ℕ → Type 0
  Sends c =
      (i : ℕ) × (c ≤ i)
      × (i < client_retry_count)
      × (sending i ≡ written)
      × ((j : ℕ) → c ≤ j → j < i → sending j ≡ write_failed)

  -- How the loop ends.
  abbrev pub Sent : ℕ → Option (Result RfsError (Unit {0})) → Type 0
  Sent c r =
      (Sends c × (r ≡ some (ok tt)))
      ⊎ ((¬ Sends c) × (r ≡ some (err (disconnected_error miner_addr))))

  Sends-later : (c : ℕ) → sending c ≡ write_failed → Sends (c + 1) → Sends c
  Sends-later c failed (i, low, high, done, before) = (
    i,
    omega arith,
    high,
    done,
    λ j p q. elim (split c j p) [
      | inl same ↦ subst (λ k. sending k ≡ write_failed) same failed
      | inr more ↦ before j more q
    ],
  )
    where
      split : (c j : ℕ) → c ≤ j → (c ≡ j) ⊎ (c + 1 ≤ j)
      split c j p = grind arith

  Sends-first :
      (c : ℕ) → Sends c → (sending c ≡ written) ⊎ ((sending c ≡ write_failed) × Sends (c + 1))
  Sends-first c (i, low, high, done, before) = elim (split c i low) [
    | inl same ↦ inl (subst (λ k. sending k ≡ written) (sym same) done)
    | inr more ↦ inr (
      before c (omega arith) (omega arith),
      (i, more, high, done, λ j p q. before j (omega arith) q),
    )
  ]
    where
      split : (c j : ℕ) → c ≤ j → (c ≡ j) ⊎ (c + 1 ≤ j)
      split c j p = grind arith

  Sent-step :
      (fuel c : ℕ) (e : SendEvent)
      → c < client_retry_count
      → sending c ≡ e
      → Sent (c + 1) (send_rounds sending miner_addr fuel (c + 1))
      → Sent c (send_rounds sending miner_addr (suc fuel) c)
  unfolding send_rounds
  Sent-step fuel c SendEvent.written low e later =
      inl ((c, omega arith, low, e, λ j p q. absurd (omega arith)), ground arith)
  Sent-step fuel c SendEvent.miner_failed low e later =
      inr (λ s. elim (Sends-first c s) [ inl w ↦ cc | inr (f, _) ↦ cc ], ground arith)
  Sent-step fuel c SendEvent.write_failed low e (inl (s, h)) = inl (Sends-later c e s, ground arith)
  Sent-step fuel c SendEvent.write_failed low e (inr (s, h)) =
      inr (λ t. elim (Sends-first c t) [ inl w ↦ cc | inr (_, more) ↦ s more ], ground arith)

  send_rounds-Sent :
      (fuel c : ℕ)
      → fuel + c ≡ client_retry_count
      → Sent c (send_rounds sending miner_addr (suc fuel) c)
  unfolding send_rounds
  send_rounds-Sent zero c full =
      inr (λ s. let (i, low, high, _, _) = s in absurd (omega arith), ground arith)
  send_rounds-Sent (suc fuel) c full =
      Sent-step (suc fuel) c (sending c) (omega arith) refl
        (send_rounds-Sent fuel (c + 1) (omega arith))

-- sendClientRequest ends, after at most ten rounds: without an error exactly if one of the first ten
-- rounds writes the request and every round before it is a failed write, and else with a
-- DisconnectedError.
pub send_client_request-Sent :
    (rfs : Connection) → Sent rfs.sending rfs.miner_addr 0 (send_client_request rfs)
unfolding send_client_request
send_client_request-Sent rfs = send_rounds-Sent rfs.sending rfs.miner_addr client_retry_count 0 refl

module _ (receiving : ℕ → ReceiveEvent) (miner_addr : Bytes) (r : RfsMinerResponse) where
  -- A round from `c` on, and before the tenth, that reads the response, after failed reads only.
  abbrev pub Receives : ℕ → Type 0
  Receives c =
      (i : ℕ) × (c ≤ i)
      × (i < client_retry_count)
      × (receiving i ≡ received r)
      × ((j : ℕ) → c ≤ j → j < i → receiving j ≡ read_failed)

  receive_rounds-ok :
      (fuel c i : ℕ)
      → fuel + c ≡ i
      → i < client_retry_count
      → receiving i ≡ received r
      → ((j : ℕ) → c ≤ j → j < i → receiving j ≡ read_failed)
      → (more : ℕ) → receive_rounds receiving miner_addr (fuel + suc more) c ≡ some (ok r)
  unfolding receive_rounds
  receive_rounds-ok zero c i e high done before more =
      let here : receiving c ≡ received r =
        subst (λ k. receiving k ≡ received r) (omega arith) done in
      let one : zero + suc more ≡ suc more = omega arith in rw one (ground arith)
  receive_rounds-ok (suc fuel) c i e high done before more =
      let here = before c (omega arith) (omega arith) in
      let rest =
        receive_rounds-ok fuel (c + 1) i (omega arith) high done (λ j p q. before j (omega arith) q)
          more in
      let one : suc fuel + suc more ≡ suc (fuel + suc more) = omega arith in rw one (ground arith)

-- getMinerResponse gives a response that is read before the tenth failed read.
pub get_miner_response-ok :
    (rfs : Connection) (r : RfsMinerResponse)
    → Receives rfs.receiving rfs.miner_addr r 0
    → get_miner_response rfs ≡ some (ok r)
unfolding get_miner_response
get_miner_response-ok rfs r (i, low, high, done, before) =
    let run =
      receive_rounds-ok rfs.receiving rfs.miner_addr r i 0 i (omega arith) high done before
        (client_retry_count - i) in
    let enough : i + suc (client_retry_count - i) ≡ client_retry_count + 1 = omega arith in
    rw enough at run
