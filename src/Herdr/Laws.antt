-- ===== src/Herdr/Laws.antt =====
-- What the reading of herdr's words keeps: statuses, session ids, ownership of a session.
use drovr.Base.{◌≡◌, refl, ◌≤◌, ◌≢◌, ◌↔◌, Text, codes, text_beq_iff, text_eq, true}
use drovr.Base.{none, some, [], ◌∷◌, all, is_empty, arith, trim, utf8_len}
use drovr.Base.{eq_ignore_ascii_case, leb, if◌then◌else◌, Bool-cases, Option-cases, inl, inr, ◌&&◌}
use drovr.Herdr.{
  is_session_char, session_id_is_usable, new_session_id, AgentSession, id, path, other,
  resumable_session, resumable_for, from_herdr, status_text,
}

-- The word that herdr reported is never lost: a status prints as the text it was read from.
pub status_text-from_herdr : (s : Text) → status_text (from_herdr s) ≡ s
unfolding from_herdr status_text
status_text-from_herdr s = ground (
  arith,
  text_beq_iff s (codes "idle"),
  text_beq_iff s (codes "working"),
  text_beq_iff s (codes "blocked"),
  text_beq_iff s (codes "done"),
  text_beq_iff s (codes "unknown"),
)

-- A session id is accepted exactly when it is not empty, has at most 128 bytes and only the
-- characters `[A-Za-z0-9._-]`, and it is then kept as it was.
pub new_session_id_iff :
    (v s : Text)
    → (new_session_id v ≡ some s)
      ↔ ((s ≡ v) × (v ≢ []) × (utf8_len v ≤ 128) × (all is_session_char v ≡ true))
unfolding new_session_id session_id_is_usable
new_session_id_iff [] s = ground arith
new_session_id_iff (c ∷ v) s =
    elim (Bool-cases (leb (utf8_len (c ∷ v)) 128 && all is_session_char (c ∷ v))) [
      | inl p ↦ ground arith
      | inr p ↦ ground arith
    ]

resumable_session_iff :
    (session : AgentSession) (expected v : Text)
    → (resumable_session session expected ≡ some v) ↔ (
        (agent : Text) × (session ≡ id (record { value = v; agent = some agent }))
        × (eq_ignore_ascii_case (trim agent) expected ≡ true))
unfolding resumable_session
resumable_session_iff (id s) expected v = elim (Option-cases s.agent) [
  | inl p ↦ (λ h. ground arith, λ h. ground (arith, h.1))
  | inr (a, p) ↦ (λ h. (a, ground arith, ground arith), λ h. ground (arith, h.1))
]
resumable_session_iff (path value) expected v = (λ h. cc, λ h. absurd (ground (arith, h.1)))
resumable_session_iff (other kind value) expected v = (λ h. cc, λ h. absurd (ground (arith, h.1)))

-- The test on the trimmed backend.
gate :
    (expected : Text) (session : AgentSession) (v : Text)
    → ((if is_empty expected then none else resumable_session session expected) ≡ some v) ↔ (
        (expected ≢ [])
        × ((agent : Text) × (session ≡ id (record { value = v; agent = some agent }))
            × (eq_ignore_ascii_case (trim agent) expected ≡ true)))
gate [] session v = (λ h. cc, λ h. absurd (h.0 refl))
gate (c ∷ e) session v = (
  λ h. (λ q. cc, (resumable_session_iff session (c ∷ e) v).0 h),
  λ h. (resumable_session_iff session (c ∷ e) v).1 h.1,
)

-- A session may be resumed for a backend exactly when herdr reported it as an id that belongs to
-- an agent, and the agent's trimmed name is the trimmed backend's up to ASCII case and is not empty.
pub resumable_for_iff :
    (session : AgentSession) (backend v : Text)
    → (resumable_for session backend ≡ some v) ↔ (
        (trim backend ≢ [])
        × ((agent : Text) × (session ≡ id (record { value = v; agent = some agent }))
            × (eq_ignore_ascii_case (trim agent) (trim backend) ≡ true)))
unfolding resumable_for resumable_session
resumable_for_iff session backend v = gate (trim backend) session v
