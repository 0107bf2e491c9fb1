-- ===== src/Api/Isolated/Agents.antt =====
-- A request of an agent, with its authentication: no other device's rows change.
use olimpo.Common.{
  ℕ, ◌≡◌, refl, sym, ap, ◌∙◌, inl, inr, Bool, not, some, List, [], ◌∷◌, Text, arith, nat_eq,
  nat_beq_iff, find_holds, select, All, foreign, find_unique, foreign-update_row, foreign-append,
  foreign-select, subst,
}
use olimpo.Errors.{DbError, Result, ok, err}
use olimpo.Gorm.{Gorm, reply, latest?}
use olimpo.Model.{Database, NetworkIdentitySnapshot}
use olimpo.Text.{trim_space}
use olimpo.AgentAuth.{Context}
use olimpo.Credential.Advance.{current_rotation, stage_candidate, start_validation}
use olimpo.Telemetry.{report}
use olimpo.Enrollment.{confirm_enrollment}
use olimpo.Network.Wan.{WanInput, build_wan}
use olimpo.Network.Input.{SegmentInput, ReportInput}
use olimpo.Network.Report.{
  report_network, build_segment, build_snapshot, wan_of, segment_of, snapshot_of,
}
use olimpo.Network.Replaced.{report_network_Sound}
use olimpo.Network.Stored.{Created, SnapshotStored}
use olimpo.Api.Replies.{with_context}
use olimpo.Api.Agents.{
  AgentRoute, agent_handler, agent_me, agent_heartbeat, agent_network_context,
  confirm_agent_enrollment, agent_current_rotation, agent_stage_candidate, agent_start_validation,
}
use olimpo.Api.AgentRequests.{AgentValidator, no_heartbeat, no_confirm, heartbeat_input}
use olimpo.Api.Isolated.{
  HasKeys, Isolated, Isolated-refl, Atomic-Isolated, respond-after, with_body-after,
  with_optional_body-after, with_param-after,
}
use olimpo.Api.Isolated.Rotations.{stage_candidate-Isolated, start_validation-Isolated}
use olimpo.Api.Isolated.Reports.{report-Isolated, confirm_enrollment-Isolated}

Created-own :
    {Row Input : Type 0} (owner : Row → ℕ) (d : ℕ) (build : Input → ℕ → Row)
    → ((x : Input) (n : ℕ) → owner (build x n) ≡ d)
    → (xs : List Input) (rs : List Row) → Created build xs rs
    → All (λ r. owner r ≡ d) rs
Created-own owner d build k [] [] h = tt
Created-own owner d build k [] (r ∷ rs) h = absurd h
Created-own owner d build k (x ∷ xs) [] h = absurd h
Created-own owner d build k (x ∷ xs) (r ∷ rs) ((n, e), h) =
    (ap owner e ∙ k x n, Created-own owner d build k xs rs h)

build_wan-device_id :
    (d : ℕ) (ip : Text) (x : WanInput) (n : ℕ) → (build_wan d ip x n).device_id ≡ d
unfolding build_wan
build_wan-device_id d ip x n = refl

build_segment-device_id : (d : ℕ) (x : SegmentInput) (n : ℕ) → (build_segment d x n).device_id ≡ d
unfolding build_segment
build_segment-device_id d x n = refl

module _ (d : ℕ) (s : Database) (keys : HasKeys s) where
  snapshots_own :
      (ip : Text) (now : ℕ) (x : NetworkIdentitySnapshot) (rows : List NetworkIdentitySnapshot)
      → SnapshotStored d ip now s x rows
      → foreign (λ x. x.device_id) d rows ≡ foreign (λ x. x.device_id) d s.network_snapshots
  unfolding build_snapshot
  snapshots_own ip now x rows (e, inl (absent, r)) =
      ap (foreign (λ x. x.device_id) d) r
      ∙ foreign-append (λ x. x.device_id) d s.network_snapshots (x ∷ [])
          (ap (λ (z : NetworkIdentitySnapshot). z.device_id) e, tt)
  snapshots_own ip now x rows (e, inr (old, present, same, r)) =
      ap (foreign (λ x. x.device_id) d) r
      ∙ foreign-update_row (λ x. x.id) (λ x. x.device_id) d (λ y. build_snapshot d ip now y.id)
          s.network_snapshots old
          (find_unique (λ x. x.id) _ s.network_snapshots old keys.snapshots present)
          ((nat_beq_iff old.device_id d).0
            (find_holds (snapshot_of d) s.network_snapshots old present))
          refl

  report_network-Isolated :
      (db : Gorm) (is_ipv6 : Text → Bool) (server : Text) (input : ReportInput) (now : ℕ)
      → Isolated d s (report_network db is_ipv6 d server input now s).1
  report_network-Isolated db is_ipv6 server input now =
      Atomic-Isolated d (report_network db is_ipv6 d server input now) s
        (λ c t (_, (x, wans, networks, rows, _, _, _, stored, made, built, _, _, e), _, _).
          let ip = trim_space server in
          let wan_rows =
            foreign-append (λ x. x.device_id) d (select (λ w. not (wan_of d w)) s.network_wans) wans
              (Created-own (λ x. x.device_id) d (build_wan d ip) (build_wan-device_id d ip)
                input.wans wans made)
            ∙ foreign-select (λ x. x.device_id) d (λ w. not (wan_of d w)) s.network_wans
                (λ w f. ground (arith, nat_beq_iff w.device_id d)) in
          let segment_rows =
            foreign-append (λ x. x.device_id) d
              (select (λ n. not (segment_of d n)) s.network_segments) networks
              (Created-own (λ x. x.device_id) d (build_segment d) (build_segment-device_id d)
                input.networks networks built)
            ∙ foreign-select (λ x. x.device_id) d (λ n. not (segment_of d n)) s.network_segments
                (λ n f. ground (arith, nat_beq_iff n.device_id d)) in
          let snapshot_rows = snapshots_own ip now x rows stored in
          subst (Isolated d s) (sym e) (ground arith))
        (report_network_Sound db is_ipv6 d server input now s)

reply-same : {A : Type 0} (r : Result DbError A) (s : Database) → (reply r s).1 ≡ s
unfolding reply
reply-same (ok a) s = refl
reply-same (err e) s = refl

-- A query changes nothing.
current_rotation-same : (db : Gorm) (d : ℕ) (s : Database) → (current_rotation db d s).1 ≡ s
unfolding current_rotation latest?
current_rotation-same db d s = reply-same _ s

module _ (db : Gorm) (valid : AgentValidator) (is_ipv6 : Text → Bool) (caller_ip : Text) (now : ℕ)
    (auth : Context) (s : Database) (keys : HasKeys s) where
  abbrev d : ℕ
  d = auth.device.id

  abbrev Apart : Database → Type 0
  Apart = Isolated d s

  pub agent_handler-Isolated :
      (route : AgentRoute)
      → Isolated auth.device.id s
          (agent_handler db valid is_ipv6 caller_ip now (some auth) route s).1
  unfolding agent_handler with_context agent_me agent_heartbeat agent_network_context
      confirm_agent_enrollment agent_current_rotation agent_stage_candidate agent_start_validation
  agent_handler-Isolated AgentRoute.get_me = Isolated-refl d s
  agent_handler-Isolated (AgentRoute.post_heartbeat body) =
      with_optional_body-after Apart s valid.on_heartbeat _ no_heartbeat body (Isolated-refl d s)
        λ req.
          respond-after Apart s _ _ (report db d caller_ip (heartbeat_input req) now s)
            (report-Isolated d s keys db caller_ip (heartbeat_input req) now)
  agent_handler-Isolated (AgentRoute.post_network_context body) =
      with_body-after Apart s valid.on_network_context _ body (Isolated-refl d s) λ req.
        respond-after Apart s _ _ (report_network db is_ipv6 d caller_ip _ now s)
          (report_network-Isolated d s keys db is_ipv6 caller_ip _ now)
  agent_handler-Isolated (AgentRoute.post_confirmation body) =
      with_optional_body-after Apart s valid.on_confirm _ no_confirm body (Isolated-refl d s) λ req.
        respond-after Apart s _ _
          (confirm_enrollment db d auth.credential.id caller_ip req.agent_version now s)
          (confirm_enrollment-Isolated d s keys db auth.credential.id caller_ip req.agent_version
            now)
  agent_handler-Isolated AgentRoute.get_current_rotation =
      respond-after Apart s _ _ (current_rotation db d s)
        (subst Apart (sym (current_rotation-same db d s)) (Isolated-refl d s))
  agent_handler-Isolated (AgentRoute.post_candidate param body) =
      with_param-after Apart s param _ _ (Isolated-refl d s) λ i.
        with_body-after Apart s valid.on_stage _ body (Isolated-refl d s) λ req.
          respond-after Apart s _ _ (stage_candidate db i d req.key_id req.secret_hash now s)
            (stage_candidate-Isolated d s keys db i req.key_id req.secret_hash now)
  agent_handler-Isolated (AgentRoute.post_start param) =
      with_param-after Apart s param _ _ (Isolated-refl d s) λ i.
        respond-after Apart s _ _ (start_validation db i d now s)
          (start_validation-Isolated d s keys db i now)
