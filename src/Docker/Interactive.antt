-- ===== src/Docker/Interactive.antt =====
-- Exec and ExecInteractive of internal/docker/docker.go.
use frridge.Base.{String, Bool, false, ◌&&◌, Option, none, some, List, if◌then◌else◌}
use frridge.Base.Int.{ℤ}
use frridge.Base.Program.{◌>>=◌, ◌>>◌, pure, lift, within}
use frridge.Base.Program.Calls.{ask, invoke, perform, as_result}
use frridge.Runtime.Host.{ExecResult}
use frridge.Docker.{
  Sdk, D, DockerError, Copied, at_step, exec_create, exec_attach, close_attach, watch_context,
  stop_watching, cancel_context, copy_output, exec_inspect, copy_input, make_raw, restore_terminal,
  get_size, follow_size, exec_resize, deferring, perform_as, exit_result,
}

module _ (k : Sdk) where
  unfoldable pub create_exec : String → List String → Bool → D String
  create_exec id cmd tty =
      let call = exec_create id cmd tty in
      within (at_step "docker exec create failed") (invoke call (λ past. k.created past call))

  unfoldable pub normalize_copy_error : Option DockerError → Option DockerError
  normalize_copy_error none = none
  normalize_copy_error (some e) = if k.is_end e then none else some e

  -- The error of a copy, where the context's own comes first.
  unfoldable pub copy_failure : Copied → Option DockerError
  copy_failure c = elim c.canceled [ some e ↦ some e | none ↦ normalize_copy_error c.failure ]

  unfoldable pub copy_exec_output : Bool → D Copied
  copy_exec_output tty = do
    c ← ask (copy_output tty) (λ past. k.copied past tty)
    within (at_step "docker exec output copy failed") (lift (as_result (copy_failure c)))
    pure c

  unfoldable pub inspect_exec : String → D ℤ
  inspect_exec exec_id =
      within (at_step "docker exec inspect failed")
        (invoke (exec_inspect exec_id) (λ past. k.exit_code past exec_id))

  -- An attachment, closed at the end, and by the context until then.
  unfoldable pub attached : {A : Type 0} → String → Bool → D A → D A
  attached exec_id tty body = do
    perform_as k "docker exec attach failed" (exec_attach exec_id tty)
    deferring close_attach
        (do perform (λ past call. none) watch_context; deferring stop_watching body)

  unfoldable pub exec : String → List String → D ExecResult
  exec id cmd = do
    exec_id ← create_exec id cmd false
    attached exec_id false (do
      c ← copy_exec_output false
      code ← inspect_exec exec_id
      pure (record { stdout = c.stdout; stderr = c.stderr; exit_code = code }))

  unfoldable pub attach_resize : String → D (Unit {0})
  attach_resize exec_id = do
    (width, height) ← within (at_step "get terminal size") (invoke get_size k.size)
    perform_as k "resize docker exec tty" (exec_resize exec_id width height)
    perform (λ past call. none) follow_size

  unfoldable pub run_attached : String → Bool → D (Unit {0})
  run_attached exec_id tty = do
    perform (λ past call. none) copy_input
    copy_exec_output tty
    code ← inspect_exec exec_id
    lift (exit_result code)

  -- The terminal in raw mode for the body.
  unfoldable pub in_raw_mode : String → D (Unit {0}) → D (Unit {0})
  in_raw_mode exec_id body = do
    perform_as k "set raw terminal mode" make_raw
    deferring restore_terminal (do attach_resize exec_id; body)

  unfoldable pub exec_interactive : String → List String → D (Unit {0})
  exec_interactive id cmd = deferring cancel_context (do
    let tty = k.stdout_tty
    exec_id ← create_exec id cmd tty
    attached exec_id tty (
        if tty && k.stdin_tty
        then in_raw_mode exec_id (run_attached exec_id tty)
        else run_attached exec_id tty))
