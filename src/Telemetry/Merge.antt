-- ===== src/Telemetry/Merge.antt =====
-- What a heartbeat makes of a snapshot and of its device, told value by value.
use olimpo.Common.{
  ◌∙◌, ℕ, ◌≡◌, refl, ◌≢◌, true, false, not, Option, none, some, List, [], ◌∷◌, Text, pos, arith,
  ◌==◌, nat_eq, nat_beq, find, update_rows, by_id, find_holds, find-update_rows, find-update_hit,
  if◌then◌else◌,
}
use mathlib.Core.Option
use olimpo.Model.{Device, AgentTelemetrySnapshot}
use olimpo.Text.{trim_space, is_empty}
use olimpo.Telemetry.{
  apply_string, apply_value, apply_heartbeat, base_snapshot, stamp, zero_float, note_agent_version,
  heard_from,
}
use olimpo.Telemetry.Input.{HeartbeatInput}

-- A text that is reported replaces the old one, without the spaces around it.
abbrev pub TakesText : Option Text → Text → Text → Type 0
TakesText none before after = after ≡ before
TakesText (some t) before after = after ≡ trim_space t

-- A value that is reported replaces the old one.
abbrev pub TakesValue : {A : Type 0} → Option A → A → A → Type 0
TakesValue none before after = after ≡ before
TakesValue (some x) before after = after ≡ x

-- The second snapshot is the first with the values of the heartbeat.
pub record IsMerge (input : HeartbeatInput) (now : ℕ) (ip : Text)
    (before after : AgentTelemetrySnapshot) : Type 0 where
  pub last_heartbeat_at : after.last_heartbeat_at ≡ now
  pub last_ip : after.last_ip ≡ trim_space ip
  pub agent_version : TakesText input.agent_version before.agent_version after.agent_version
  pub system_hostname : TakesText input.system_hostname before.system_hostname after.system_hostname
  pub platform : TakesText input.platform before.platform after.platform
  pub architecture : TakesText input.architecture before.architecture after.architecture
  pub os_version : TakesText input.os_version before.os_version after.os_version
  pub kernel_version : TakesText input.kernel_version before.kernel_version after.kernel_version
  pub firmware_version :
      TakesText input.firmware_version before.firmware_version after.firmware_version
  pub boot_id : TakesText input.boot_id before.boot_id after.boot_id
  pub uptime_seconds : TakesValue input.uptime_seconds before.uptime_seconds after.uptime_seconds
  pub cpu_count : TakesValue input.cpu_count before.cpu_count after.cpu_count
  pub load_1 : TakesValue input.load_1 before.load_1 after.load_1
  pub load_5 : TakesValue input.load_5 before.load_5 after.load_5
  pub load_15 : TakesValue input.load_15 before.load_15 after.load_15
  pub memory_total_bytes :
      TakesValue input.memory_total_bytes before.memory_total_bytes after.memory_total_bytes
  pub memory_available_bytes :
      TakesValue input.memory_available_bytes before.memory_available_bytes
        after.memory_available_bytes
  pub disk_total_bytes :
      TakesValue input.disk_total_bytes before.disk_total_bytes after.disk_total_bytes
  pub disk_available_bytes :
      TakesValue input.disk_available_bytes before.disk_available_bytes after.disk_available_bytes

-- A snapshot of which only the agent's version is known, from the device.
abbrev pub IsBlankOf : Device → AgentTelemetrySnapshot → Type 0
IsBlankOf device x =
    (x.agent_version ≡ device.agent_version)
    × (x.system_hostname ≡ [])
    × (x.platform ≡ [])
    × (x.architecture ≡ [])
    × (x.os_version ≡ [])
    × (x.kernel_version ≡ [])
    × (x.firmware_version ≡ [])
    × (x.boot_id ≡ [])
    × (x.uptime_seconds ≡ 0)
    × (x.cpu_count ≡ pos 0)
    × (x.load_1 ≡ zero_float)
    × (x.load_5 ≡ zero_float)
    × (x.load_15 ≡ zero_float)
    × (x.memory_total_bytes ≡ 0)
    × (x.memory_available_bytes ≡ 0)
    × (x.disk_total_bytes ≡ 0)
    × (x.disk_available_bytes ≡ 0)

-- What a heartbeat is merged into: the snapshot of the device, or else a blank one.
abbrev pub IsBase : Device → Option AgentTelemetrySnapshot → AgentTelemetrySnapshot → Type 0
IsBase device none x = IsBlankOf device x
IsBase device (some old) x = x ≡ old

pub base_snapshot-IsBase :
    (device : Device) (d : ℕ) (old : Option AgentTelemetrySnapshot)
    → IsBase device old (base_snapshot device d old)
base_snapshot-IsBase device d none = (
  refl, refl, refl, refl, refl, refl, refl, refl, refl, refl, refl, refl, refl, refl, refl, refl,
  refl,
)
base_snapshot-IsBase device d (some old) = refl

takes_text : (o : Option Text) (before : Text) → TakesText o before (apply_string o before)
takes_text none before = refl
takes_text (some t) before = refl

takes_value : {A : Type 0} (o : Option A) (before : A) → TakesValue o before (apply_value o before)
takes_value none before = refl
takes_value (some x) before = refl

pub apply_heartbeat-IsMerge :
    (input : HeartbeatInput) (now : ℕ) (ip : Text) (x : AgentTelemetrySnapshot) (n : ℕ)
    → IsMerge input now ip x (record (apply_heartbeat input (stamp now ip x)) { id = n })
unfolding apply_heartbeat
apply_heartbeat-IsMerge input now ip x n = record {
  last_heartbeat_at = refl;
  last_ip = refl;
  agent_version = takes_text input.agent_version x.agent_version;
  system_hostname = takes_text input.system_hostname x.system_hostname;
  platform = takes_text input.platform x.platform;
  architecture = takes_text input.architecture x.architecture;
  os_version = takes_text input.os_version x.os_version;
  kernel_version = takes_text input.kernel_version x.kernel_version;
  firmware_version = takes_text input.firmware_version x.firmware_version;
  boot_id = takes_text input.boot_id x.boot_id;
  uptime_seconds = takes_value input.uptime_seconds x.uptime_seconds;
  cpu_count = takes_value input.cpu_count x.cpu_count;
  load_1 = takes_value input.load_1 x.load_1;
  load_5 = takes_value input.load_5 x.load_5;
  load_15 = takes_value input.load_15 x.load_15;
  memory_total_bytes = takes_value input.memory_total_bytes x.memory_total_bytes;
  memory_available_bytes = takes_value input.memory_available_bytes x.memory_available_bytes;
  disk_total_bytes = takes_value input.disk_total_bytes x.disk_total_bytes;
  disk_available_bytes = takes_value input.disk_available_bytes x.disk_available_bytes;
}

-- The version of an agent is taken where one is reported that is not blank.
abbrev pub NotesVersion : Option Text → Text → Text → Type 0
NotesVersion none before after = after ≡ before
NotesVersion (some t) before after =
    ((trim_space t ≡ []) → after ≡ before) × ((trim_space t ≢ []) → after ≡ trim_space t)

-- The device was seen now, at that address; its names, kind and status are as before.
abbrev pub IsSeen : HeartbeatInput → ℕ → Text → Device → Device → Type 0
IsSeen input now ip x x' =
    (x'.last_seen_at ≡ some now)
    × (x'.last_ip ≡ trim_space ip)
    × NotesVersion input.agent_version x.agent_version x'.agent_version
    × (x'.id ≡ x.id)
    × (x'.name ≡ x.name)
    × (x'.display_name ≡ x.display_name)
    × (x'.kind ≡ x.kind)
    × (x'.status ≡ x.status)

heard_from-IsSeen :
    (input : HeartbeatInput) (now : ℕ) (ip : Text) (x : Device)
    → IsSeen input now ip x (heard_from input now ip x)
heard_from-IsSeen input now ip x = go input.agent_version
  where
    seen : Device
    seen = record x { last_seen_at = some now; last_ip = trim_space ip }

    go :
        (o : Option Text)
        → ((note_agent_version o seen).last_seen_at ≡ some now)
          × ((note_agent_version o seen).last_ip ≡ trim_space ip)
          × NotesVersion o x.agent_version (note_agent_version o seen).agent_version
          × ((note_agent_version o seen).id ≡ x.id)
          × ((note_agent_version o seen).name ≡ x.name)
          × ((note_agent_version o seen).display_name ≡ x.display_name)
          × ((note_agent_version o seen).kind ≡ x.kind)
          × ((note_agent_version o seen).status ≡ x.status)
    go none = (refl, refl, refl, refl, refl, refl, refl, refl)
    go (some t) = noted (trim_space t)
      where
        noted :
            (u : Text)
            → ((if not (is_empty u) then record seen { agent_version = u } else seen).last_seen_at
                ≡ some now)
              × ((if not (is_empty u) then record seen { agent_version = u } else seen).last_ip
                  ≡ trim_space ip)
              × (((u ≡ [])
                    → (if not (is_empty u)
                        then record seen { agent_version = u }
                        else seen).agent_version
                      ≡ x.agent_version)
                  × ((u ≢ [])
                      → (if not (is_empty u)
                          then record seen { agent_version = u }
                          else seen).agent_version
                        ≡ u))
              × ((if not (is_empty u) then record seen { agent_version = u } else seen).id ≡ x.id)
              × ((if not (is_empty u) then record seen { agent_version = u } else seen).name
                  ≡ x.name)
              × ((if not (is_empty u) then record seen { agent_version = u } else seen).display_name
                  ≡ x.display_name)
              × ((if not (is_empty u) then record seen { agent_version = u } else seen).kind
                  ≡ x.kind)
              × ((if not (is_empty u) then record seen { agent_version = u } else seen).status
                  ≡ x.status)
        noted [] = (refl, refl, ((λ e. refl), (λ h. absurd (h refl))), refl, refl, refl, refl, refl)
        noted (c ∷ u) = (refl, refl, ((λ e. cc), (λ h. refl)), refl, refl, refl, refl, refl)

-- The device of the key was seen, and the other devices are as they were.
abbrev pub SeesDevice : HeartbeatInput → ℕ → Text → ℕ → List Device → List Device → Type 0
SeesDevice input now ip d xs xs' =
    ((x : Device)
      → find (by_id (λ y. y.id) d) xs ≡ some x
      → (x' : Device) × (find (by_id (λ y. y.id) d) xs' ≡ some x') × IsSeen input now ip x x')
    × ((j : ℕ) → j ≢ d → find (by_id (λ y. y.id) j) xs' ≡ find (by_id (λ y. y.id) j) xs)

heard_from-id :
    (input : HeartbeatInput) (now : ℕ) (ip : Text) (x : Device)
    → (heard_from input now ip x).id ≡ x.id
heard_from-id input now ip x = ground arith

pub heard_from-SeesDevice :
    (input : HeartbeatInput) (now : ℕ) (ip : Text) (d : ℕ) (xs : List Device)
    → SeesDevice input now ip d xs (update_rows (λ x. x.id == d) (heard_from input now ip) xs)
heard_from-SeesDevice input now ip d xs = (
  (λ x at. (
    heard_from input now ip x,
    find-update_hit (λ y. y.id) (λ y. y.id == d) (heard_from input now ip) xs
        (heard_from-id input now ip) d x at (find_holds _ xs x at),
    heard_from-IsSeen input now ip x,
  )),
  λ j ne.
      find-update_rows (λ y. y.id) (λ y. y.id == d) (heard_from input now ip) j xs
        (heard_from-id input now ip)
      ∙ miss j ne (find (by_id (λ y. y.id) j) xs) refl,
)
  where
    miss :
        (j : ℕ)
        → j ≢ d
        → (o : Option Device) → find (by_id (λ y. y.id) j) xs ≡ o
        → Option.map (λ x. if x.id == d then heard_from input now ip x else x) o ≡ o
    miss j ne none e = refl
    miss j ne (some x) e =
        let own : nat_beq x.id j ≡ true = find_holds _ xs x e in
        let off : nat_beq x.id d ≡ false = ground arith in rw off refl
