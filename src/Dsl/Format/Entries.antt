-- ===== src/Dsl/Format/Entries.antt =====
-- writeBodyEntry of internal/dsl/format.go. A daemon writes only clauses that hold no daemon, so
-- the entries that do not are written first.
use go_bake.Base.{Bool, true, false, [], ◌++◌, Text, bytes, decimal, collect, if◌then◌else◌}
use go_bake.Dsl.Ast.{BodyEntry, to_list}
use go_bake.Dsl.Order.{order_body_entries}
use go_bake.Dsl.Format.{
  spaced, newline, write_env, write_step, write_steps, write_desc, write_list, write_preset,
  write_workflow_entry, write_image, write_optional, write_args, join_comma,
}

unfoldable pub write_clause : Text → BodyEntry → Text
unfolding write_env write_step write_steps write_desc write_list write_preset write_workflow_entry
    write_image write_optional write_args join_comma collect bytes decimal
write_clause indent (BodyEntry.desc text) = write_desc indent text
write_clause indent (BodyEntry.deps names) = indent ++ bytes "deps " ++ join_comma names ++ newline
write_clause indent (BodyEntry.when_env var) = indent ++ bytes "when env " ++ var ++ newline
write_clause indent (BodyEntry.when_cmd argv) = write_list indent (bytes "when cmd") argv
write_clause indent (BodyEntry.inputs paths) = write_list indent (bytes "inputs") paths
write_clause indent (BodyEntry.outputs paths) = write_list indent (bytes "outputs") paths
write_clause indent (BodyEntry.args a) = write_args indent a
write_clause indent (BodyEntry.env pairs) = write_env indent pairs
write_clause indent (BodyEntry.cwd path) = indent ++ bytes "cwd " ++ path ++ newline
write_clause indent (BodyEntry.tags tags) = indent ++ bytes "tags" ++ collect spaced tags ++ newline
write_clause indent BodyEntry.private = indent ++ bytes "private" ++ newline
write_clause indent (BodyEntry.passthrough n name) =
    indent
    ++ bytes "passthrough step = "
    ++ decimal n
    ++ write_optional (bytes " name ") name
    ++ newline
write_clause indent (BodyEntry.preset p) = write_preset indent p
write_clause indent (BodyEntry.pool name) = indent ++ bytes "pool " ++ name ++ newline
write_clause indent (BodyEntry.mutex name) = indent ++ bytes "mutex " ++ name ++ newline
write_clause indent (BodyEntry.image i) = write_image indent i
write_clause indent BodyEntry.unsafe = indent ++ bytes "unsafe" ++ newline
write_clause indent (BodyEntry.net name) = indent ++ bytes "net " ++ name ++ newline
write_clause indent (BodyEntry.vol name path) =
    indent ++ bytes "vol " ++ name ++ write_optional (bytes " ") path ++ newline
write_clause indent (BodyEntry.workflow entries) =
    indent ++ bytes "workflow {" ++ collect write_workflow_entry entries ++ bytes " }" ++ newline
write_clause indent (BodyEntry.steps steps) = write_steps indent steps
write_clause indent (BodyEntry.step s) = indent ++ write_step s ++ newline
write_clause indent (BodyEntry.daemon pos name body) = []

-- What a daemon writes of its body.
unfoldable pub is_daemon_clause : BodyEntry → Bool
is_daemon_clause (BodyEntry.steps _) = true
is_daemon_clause (BodyEntry.step _) = true
is_daemon_clause (BodyEntry.env _) = true
is_daemon_clause (BodyEntry.cwd _) = true
is_daemon_clause (BodyEntry.image _) = true
is_daemon_clause BodyEntry.unsafe = true
is_daemon_clause _ = false

unfoldable pub write_in_daemon : Text → BodyEntry → Text
unfolding is_daemon_clause write_clause
write_in_daemon indent e = if is_daemon_clause e then write_clause indent e else []

unfoldable pub write_body_entry : Text → BodyEntry → Text
unfolding write_in_daemon write_clause order_body_entries collect bytes
write_body_entry indent (BodyEntry.daemon pos name body) =
    indent
    ++ bytes "daemon "
    ++ name
    ++ bytes " {"
    ++ newline
    ++ collect (write_in_daemon (indent ++ bytes "  ")) (order_body_entries (to_list body))
    ++ indent
    ++ bytes "}"
    ++ newline
write_body_entry indent e = write_clause indent e
