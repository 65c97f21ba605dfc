-- ===== src/Coordinator/Sent.antt =====
-- What is sent for one command, coordinator.py: a command that was accepted is not sent again.
use hymer_connect_ha.Prelude.{
  ◌⊎◌, sym, inr, ◌∙◌, inl, ℕ, ◌+◌, ◌≤◌, Bool, true, false, List, [], ◌∷◌, ◌++◌, ◌≡◌, refl, arith,
  if◌then◌else◌, Bool-cases,
}
use hymer_connect_ha.Prelude.Text.{codes, text_eq, text_in, text_eq→eq}
use hymer_connect_ha.Coordinator.Commands.{
  ble_routable, cloud, ble, Sending, CloudAttempt, BleAttempt, no_transport, Options, ble_ready,
  transport_order, Tried, over_cloud, last_attempt, once_more, try_cloud_send, try_ble_send,
  try_send, send_over, send_with_retry,
}

-- Every sending but the last was refused, and the last was accepted exactly if `ok`.
abbrev pub LastDecides : Bool → List Sending → Type 0
LastDecides ok [] = ok ≡ false
LastDecides ok (s ∷ []) = s.is_accepted ≡ ok
LastDecides ok (s ∷ t ∷ sendings) = (s.is_accepted ≡ false) × LastDecides ok (t ∷ sendings)

-- How many went over the hub, and over Bluetooth.
unfoldable pub count_cloud : List Sending → ℕ
count_cloud [] = 0
count_cloud (s ∷ sendings) = elim s.transport [
  | cloud ↦ count_cloud sendings + 1
  | ble ↦ count_cloud sendings
]

unfoldable pub count_ble : List Sending → ℕ
count_ble [] = 0
count_ble (s ∷ sendings) = elim s.transport [
  | cloud ↦ count_ble sendings
  | ble ↦ count_ble sendings + 1
]

count_cloud-append :
    (xs ys : List Sending) → count_cloud (xs ++ ys) ≡ count_cloud xs + count_cloud ys
unfolding count_cloud
count_cloud-append [] ys = omega arith
count_cloud-append (s ∷ xs) ys = ground (arith, count_cloud-append xs ys)

count_ble-append : (xs ys : List Sending) → count_ble (xs ++ ys) ≡ count_ble xs + count_ble ys
unfolding count_ble
count_ble-append [] ys = omega arith
count_ble-append (s ∷ xs) ys = ground (arith, count_ble-append xs ys)

LastDecides-append :
    (ok : Bool) (xs ys : List Sending)
    → LastDecides false xs
    → LastDecides ok ys
    → LastDecides ok (xs ++ ys)
LastDecides-append ok [] ys refused later = later
LastDecides-append ok (s ∷ []) [] refused later = refused ∙ sym later
LastDecides-append ok (s ∷ []) (t ∷ ys) refused later = (refused, later)
LastDecides-append ok (s ∷ t ∷ xs) ys (refused, rest) later =
    (refused, LastDecides-append ok (t ∷ xs) ys rest later)

-- What a transport does: `most_cloud` and `most_ble` sendings at most.
abbrev Tries : (most_cloud most_ble : ℕ) → Tried → Type 0
Tries most_cloud most_ble tried =
    LastDecides tried.0 tried.1
    × (count_cloud tried.1 ≤ most_cloud)
    × (count_ble tried.1 ≤ most_ble)

last_attempt-Tries : (attempt : CloudAttempt) → Tries 1 0 (last_attempt attempt)
unfolding last_attempt count_cloud count_ble
last_attempt-Tries CloudAttempt.unavailable = (refl, omega arith, omega arith)
last_attempt-Tries (CloudAttempt.answers ok) = (refl, omega arith, omega arith)
last_attempt-Tries CloudAttempt.raises = (refl, omega arith, omega arith)

refused_first :
    (m n : ℕ) (s : Sending) (ok : Bool) (sendings : List Sending)
    → s.is_accepted ≡ false
    → LastDecides ok sendings
    → LastDecides ok (s ∷ sendings)
refused_first m n s ok [] refused later = refused ∙ sym later
refused_first m n s ok (t ∷ sendings) refused later = (refused, later)

once_more-Tries : (second : CloudAttempt) → Tries 2 0 (once_more second)
unfolding once_more count_cloud count_ble
once_more-Tries second =
    let (decides, clouds, bles) = last_attempt-Tries second in
    (refused_first 0 0 (over_cloud false) _ _ refl decides, omega arith, omega arith)

try_cloud_send-Tries : (first second : CloudAttempt) → Tries 2 0 (try_cloud_send first second)
unfolding try_cloud_send count_cloud count_ble
try_cloud_send-Tries CloudAttempt.unavailable second = (refl, omega arith, omega arith)
try_cloud_send-Tries (CloudAttempt.answers true) second = (refl, omega arith, omega arith)
try_cloud_send-Tries (CloudAttempt.answers false) second = once_more-Tries second
try_cloud_send-Tries CloudAttempt.raises second = once_more-Tries second

try_ble_send-Tries : (attempt : BleAttempt) → Tries 0 1 (try_ble_send attempt)
unfolding try_ble_send count_cloud count_ble
try_ble_send-Tries no_transport = (refl, omega arith, omega arith)
try_ble_send-Tries (BleAttempt.answers ok) = (refl, omega arith, omega arith)
try_ble_send-Tries BleAttempt.raises = (refl, omega arith, omega arith)

-- A transport, and then those that follow.
Tries-then :
    (m n k l : ℕ) (tried later : Tried)
    → Tries m n tried
    → Tries k l later
    → Tries (m + k) (n + l) (if tried.0 then (true, tried.1) else (later.0, tried.1 ++ later.1))
Tries-then m n k l (true, sendings) later (decides, clouds, bles) after =
    (decides, omega arith, omega arith)
Tries-then m n k l (false, sendings) (ok, rest) (decides, clouds, bles) (decides', clouds', bles') =
    (
      LastDecides-append ok sendings rest decides decides',
      omega (arith, count_cloud-append sendings rest),
      omega (arith, count_ble-append sendings rest),
    )

nothing_left : Tries 0 0 (false, [])
unfolding count_cloud count_ble
nothing_left = (refl, omega arith, omega arith)

routable :
    (method_name : List ℕ)
    → text_in method_name ble_routable ≡ true
    → (method_name ≡ codes "send_light_command") ⊎ (method_name ≡ codes "send_multi_sensor_command")
unfolding text_in
routable method_name h = elim (Bool-cases (text_eq (codes "send_light_command") method_name)) [
  | inl e ↦ inl (sym (text_eq→eq (codes "send_light_command") method_name e))
  | inr e ↦
      inr (sym (text_eq→eq (codes "send_multi_sensor_command") method_name (ground (arith, e, h))))
]

module _ (first second : CloudAttempt) (over_air : BleAttempt) where
  sent_cloud : Tries 2 0 (send_over first second over_air (cloud ∷ []))
  unfolding send_over try_send
  sent_cloud = Tries-then 2 0 0 0 _ _ (try_cloud_send-Tries first second) nothing_left

  sent_both : Tries 2 1 (send_over first second over_air (cloud ∷ ble ∷ []))
  unfolding send_over try_send
  sent_both =
      Tries-then 2 0 0 1 _ _ (try_cloud_send-Tries first second)
        (Tries-then 0 1 0 0 _ _ (try_ble_send-Tries over_air) nothing_left)

  sent_ble_first : Tries 2 1 (send_over first second over_air (ble ∷ cloud ∷ []))
  unfolding send_over try_send
  sent_ble_first =
      Tries-then 0 1 2 0 _ _ (try_ble_send-Tries over_air)
        (Tries-then 2 0 0 0 _ _ (try_cloud_send-Tries first second) nothing_left)

  -- Bluetooth is enabled, has an address, and the command is one of the two that it carries.
  abbrev pub CanCarry : Options → List ℕ → Type 0
  CanCarry options method_name =
      (options.ble_enabled ≡ true)
      × (options.has_ble_address ≡ true)
      × ((method_name ≡ codes "send_light_command")
          ⊎ (method_name ≡ codes "send_multi_sensor_command"))

  ready-CanCarry :
      (options : Options) (method_name : List ℕ)
      → ble_ready options method_name ≡ true
      → CanCarry options method_name
  unfolding ble_ready
  ready-CanCarry options method_name h =
      (ground (arith, h), ground (arith, h), routable method_name (ground (arith, h)))

  abbrev pub SentOnce : Options → List ℕ → Tried → Type 0
  SentOnce options method_name tried =
      LastDecides tried.0 tried.1
      × (count_cloud tried.1 ≤ 2)
      × (count_ble tried.1 ≤ 1)
      × ((count_ble tried.1 ≡ 0) ⊎ CanCarry options method_name)

  with_ble :
      (options : Options) (method_name : List ℕ) (tried : Tried)
      → CanCarry options method_name
      → Tries 2 1 tried
      → SentOnce options method_name tried
  with_ble options method_name tried carried (decides, clouds, bles) =
      (decides, clouds, bles, inr carried)

  without_ble :
      (options : Options) (method_name : List ℕ) (tried : Tried)
      → Tries 2 0 tried
      → SentOnce options method_name tried
  without_ble options method_name tried (decides, clouds, bles) =
      (decides, clouds, omega arith, inl (omega arith))

  -- Whatever the transports answer: of the sendings for one command every one but the last was
  -- refused, and the last was accepted exactly if the command succeeds, so that an accepted command
  -- is never sent again; at most two go over the hub, and at most one over Bluetooth, and none
  -- unless Bluetooth is enabled and has an address and the command is send_light_command or
  -- send_multi_sensor_command.
  pub send_with_retry-SentOnce :
      (options : Options) (method_name : List ℕ)
      → SentOnce options method_name (send_with_retry first second over_air options method_name)
  unfolding send_with_retry transport_order
  send_with_retry-SentOnce options method_name = elim (Bool-cases (ble_ready options method_name)) [
    | inl ready ↦
        let carried = ready-CanCarry options method_name ready in
        rw ready (elim (Bool-cases options.ble_primary) [
          | inl e ↦ rw e (with_ble options method_name _ carried sent_ble_first)
          | inr e ↦ rw e (with_ble options method_name _ carried sent_both)
        ])
    | inr not_ready ↦ rw not_ready (without_ble options method_name _ sent_cloud)
  ]
