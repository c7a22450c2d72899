-- ===== src/Chan/State.antt =====
-- taskman/proc/proc.h, channel.c, connect.c: the two registries and the searches in them.
use lq.Base.{
  ℕ, suc, Bool, ◌&&◌, ◌||◌, Option, none, some, List, [], ◌∷◌, ◌==◌, if◌then◌else◌, get_elem?,
}

-- `tm_pulse_t`
pub record Pulse : Type 0 where
  pub sender_pid : ℕ
  pub priority : ℕ
  pub code : ℕ
  pub value : ℕ

-- `tm_channel_t`
pub record Channel : Type 0 where
  pub in_use : Bool
  pub master : ℕ
  pub owner_recv : ℕ
  pub owner_pid : ℕ
  pub owner_chid : ℕ
  pub flags : ℕ
  pub pulse_queue : List Pulse
  pub pulse_head : ℕ
  pub pulse_tail : ℕ
  pub pulse_count : ℕ
  pub ntfn_master : ℕ
  pub ntfn_sig : ℕ

-- `tm_connection_t`
pub record Connection : Type 0 where
  pub in_use : Bool
  pub channel_idx : ℕ
  pub badge : ℕ
  pub client_pid : ℕ
  pub client_slot : ℕ
  pub ntfn_slot : ℕ
  pub flags : ℕ
  pub ctx0 : ℕ
  pub ctx1 : ℕ

-- `g_channels` and `g_connections`; the constants for their sizes are the lengths.
pub record Registry : Type 0 where
  pub channels : List Channel
  pub connections : List Connection

-- The first place that passes a test, with what is there.
unfoldable pub first {ℓ} : {A : Type ℓ} → (A → Bool) → List A → Option (ℕ × A)
first p [] = none
first p (x ∷ xs) =
    let rest = first p xs in
    if p x then some (0, x) else elim rest [ none ↦ none | some (i, y) ↦ some (suc i, y) ]

abbrev pub is_slot : ℕ → ℕ → Connection → Bool
is_slot pid slot c = c.in_use && (c.client_pid == pid && c.client_slot == slot)

abbrev pub is_badge : ℕ → Connection → Bool
is_badge badge c = c.in_use && c.badge == badge

abbrev pub connection_find_by_slot : ℕ → ℕ → Registry → Option (ℕ × Connection)
connection_find_by_slot pid slot r = first (is_slot pid slot) r.connections

abbrev pub connection_find_by_badge : ℕ → Registry → Option (ℕ × Connection)
connection_find_by_badge badge r = first (is_badge badge) r.connections

-- The channel of a connection, if the index is within the table and the channel in use.
unfoldable pub channel_by_badge : ℕ → Registry → Option Channel
channel_by_badge badge r = elim (connection_find_by_badge badge r) [
  | none ↦ none
  | some (j, cn) ↦ elim (get_elem? r.channels cn.channel_idx) [
    | none ↦ none
    | some c ↦ if c.in_use then some c else none
  ]
]

-- `QSOE_IS_GLOBAL_CHANNEL` is the parameter.
module _ (is_global : ℕ → Bool) where
  abbrev pub is_channel : ℕ → ℕ → Channel → Bool
  is_channel pid chid c =
      (c.in_use && c.owner_chid == chid) && (is_global chid || c.owner_pid == pid)

  abbrev pub channel_find : ℕ → ℕ → Registry → Option (ℕ × Channel)
  channel_find pid chid r = first (is_channel pid chid) r.channels
