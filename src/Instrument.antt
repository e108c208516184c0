-- ===== src/Instrument.antt =====
-- The instrumenter of internal/instrument/instrumenter.go.
pub mod Segments
pub mod Weave
pub mod Preserve
pub mod Loop
pub mod Files
use pgcov.Base.{
  ℕ, zero, suc, ◌+◌, ◌-◌, Bool, true, false, not, ◌&&◌, ◌||◌, Option, none, some, List, [], ◌∷◌,
  ◌++◌, ◌==◌, ltb, leb, if◌then◌else◌, Bytes, codes, length, take, drop, slice, get_or, bytes_eq,
}
use pgcov.Text.{split, double_quotes, is_blank, trim_blanks, is_empty_line}
use pgcov.Lexer.{Token, Lexer}
use pgcov.Parser.{Statement, StatementType}
use pgcov.Signal.{format_signal_id}
use pgcov.Point.{CoveragePoint}

-- `getIndentation`
unfoldable pub get_indentation : Bytes → Bytes
unfolding trim_blanks
get_indentation line = take (length line - length (trim_blanks line)) line

first_indentation : List Bytes → Bytes
unfolding get_indentation is_empty_line
first_indentation [] = []
first_indentation (line ∷ lines) =
    if not (is_empty_line line) then get_indentation line else first_indentation lines

-- `indentOf`, and the loop at the start of `emitSegment`, which is the same.
unfoldable pub indent_of : Bytes → Bytes
unfolding first_indentation split
indent_of s = first_indentation (split b'\n' s)

-- The loop of `indentBefore`: how far the blanks before `i` reach.
blanks_from : Bytes → ℕ → ℕ
blanks_from content zero = zero
blanks_from content (suc i) =
    let rest = blanks_from content i in if is_blank (get_or content i 0) then rest else suc i

unfoldable pub indent_before : Bytes → ℕ → Bytes
unfolding blanks_from
indent_before content pos =
    let i = blanks_from content pos in
    if ltb (length content) pos
    then []
    else if ltb 0 i && not (get_or content (i - 1) 0 == b'\n')
    then []
    else slice content i pos

-- `SELECT pg_notify('<channel>', '<signal>')`
unfoldable pub notify_call : Bytes → Bytes → Bytes
unfolding double_quotes
notify_call channel signal_id =
    codes "SELECT pg_notify('"
    ++ (channel ++ (codes "', '" ++ (double_quotes signal_id ++ codes "')")))

unfoldable pub plpgsql_signal : Bytes → Bytes → Bytes
unfolding notify_call
plpgsql_signal channel signal_id =
    codes "EXECUTE '" ++ (double_quotes (notify_call channel signal_id) ++ codes "';")

-- The statement that fires one signal, in a body of either language.
unfoldable pub signal_call : Bool → Bytes → Bytes → Bytes
unfolding notify_call plpgsql_signal
signal_call use_sql_statement channel signal_id =
    if use_sql_statement
    then notify_call channel signal_id ++ codes ";"
    else plpgsql_signal channel signal_id

unfoldable pub mark_statement_lines_as_covered : Statement → Bytes → List CoveragePoint
unfolding format_signal_id
mark_statement_lines_as_covered stmt file_path =
    record {
      file = file_path;
      start_pos = stmt.start_pos;
      len = length stmt.raw_sql;
      signal_id = format_signal_id file_path stmt.start_pos (length stmt.raw_sql);
      implicit_coverage = true;
    }
    ∷ []

-- The variables of `instrumentBody` that its loop changes; `seg_start` is `none` for -1.
pub record Scan : Type 0 where
  pub written : Bytes
  pub last_written : ℕ
  pub locations : List CoveragePoint
  pub past_begin : Bool
  pub has_content : Bool
  pub seg_start : Option ℕ

module _ (lx : Lexer) where
  executable_from : List Token → Bool
  executable_from [] = false
  executable_from (t ∷ ts) =
      if t.ty == lx.comment
      then executable_from ts
      else not (
          t.ty == lx.k_begin
          || (t.ty == lx.k_end
              || (t.ty == lx.k_loop || (t.ty == lx.k_declare || t.ty == lx.k_exception))))

  unfoldable pub is_executable_segment : Bytes → Bool
  unfolding executable_from
  is_executable_segment segment = executable_from (lx.tokens segment)

  abbrev is_non_fatal : Token → Bool
  is_non_fatal t =
      t.ty == lx.k_notice
      || (t.ty == lx.k_warning || (t.ty == lx.k_info || (t.ty == lx.k_log || t.ty == lx.k_debug)))

  -- The loops of `findTerminalPos`; `raised` is the position of a RAISE whose kind is still to come.
  terminal_from : Option ℕ → List Token → Option ℕ
  terminal_from (some pos) [] = some pos
  terminal_from (some pos) (t ∷ ts) =
      let rest = terminal_from (if t.ty == lx.comment then some pos else none) ts in
      if t.ty == lx.comment then rest else if is_non_fatal t then rest else some pos
  terminal_from none [] = none
  terminal_from none (t ∷ ts) =
      let rest = terminal_from (if t.ty == lx.k_raise then some t.pos else none) ts in
      if t.ty == lx.k_return then some t.pos else rest

  -- `none` is -1.
  unfoldable pub find_terminal_pos : Bytes → Option ℕ
  unfolding terminal_from
  find_terminal_pos segment = terminal_from none (lx.tokens segment)

  module _ (stmt : Statement) (file_path : Bytes) (use_sql_statement : Bool) (channel : Bytes) where
    unfoldable pub point : ℕ → Bytes → CoveragePoint
    unfolding format_signal_id
    point seg_start seg_text =
        let start = stmt.start_pos + stmt.body_start + seg_start in
        record {
          file = file_path;
          start_pos = start;
          len = length seg_text;
          signal_id = format_signal_id file_path start (length seg_text);
          implicit_coverage = false;
        }

    abbrev call : CoveragePoint → Bytes
    call cp = signal_call use_sql_statement channel cp.signal_id

    -- What is written for the segment, and how far the body is written then.
    emit_terminal : Bytes → ℕ → CoveragePoint → Option ℕ → Bytes × ℕ
    unfolding indent_of
    emit_terminal seg_text seg_end cp (some term_pos) = (
      take term_pos seg_text
          ++ ((indent_of (drop term_pos seg_text) ++ (call cp ++ codes "\n"))
              ++ drop term_pos seg_text),
      seg_end,
    )
    emit_terminal seg_text seg_end cp none =
        let signal = codes "\n" ++ (indent_of seg_text ++ call cp) in
        if ltb seg_end (length stmt.body) && get_or stmt.body seg_end 0 == b';'
        then (seg_text ++ (codes ";" ++ signal), seg_end + 1)
        else (seg_text ++ signal, seg_end)

    emit_signal : ℕ → Bytes → ℕ → CoveragePoint → Bytes × ℕ
    unfolding emit_terminal indent_before find_terminal_pos
    emit_signal seg_start seg_text seg_end cp =
        if use_sql_statement
        then (call cp ++ (codes "\n" ++ indent_before stmt.body seg_start) ++ seg_text, seg_end)
        else emit_terminal seg_text seg_end cp (find_terminal_pos seg_text)

    -- `emitSegment`
    unfoldable pub emit_segment : ℕ → ℕ → Scan → Scan
    unfolding emit_signal point is_executable_segment signal_call
    emit_segment seg_start seg_end st =
        let seg_text = slice stmt.body seg_start seg_end in
        let cp = point seg_start seg_text in
        let gap =
          if ltb st.last_written seg_start then slice stmt.body st.last_written seg_start else [] in
        let (text, last) = emit_signal seg_start seg_text seg_end cp in
        if not (is_executable_segment seg_text) then st else record st {
          written = st.written ++ (gap ++ text);
          last_written = last;
          locations = st.locations ++ cp ∷ [];
        }

    abbrev emit_if : Bool → Option ℕ → ℕ → Scan → Scan
    emit_if true (some seg_start) seg_end st = emit_segment seg_start seg_end st
    emit_if _ _ seg_end st = st

    -- One round of the loop.
    unfoldable pub on_token : Scan → Token → Scan
    unfolding emit_segment
    on_token st t =
        if not st.past_begin
        then record st { past_begin = t.ty == lx.k_begin }
        else if t.ty == lx.comment
        then st
        else if t.ty == b';'
        then record (emit_if st.has_content st.seg_start t.pos st) {
          has_content = false;
          seg_start = none;
        }
        else record st {
          seg_start = if not st.has_content then some t.pos else st.seg_start;
          has_content = true;
        }

    unfoldable pub on_tokens : Scan → List Token → Scan
    unfolding on_token
    on_tokens st [] = st
    on_tokens st (t ∷ ts) = on_tokens (on_token st t) ts

    -- The segment behind the last semicolon.
    abbrev emit_trailing : Bool → Option ℕ → Scan → Scan
    emit_trailing true (some seg_start) st =
        if ltb seg_start (length stmt.body)
        then emit_segment seg_start (length stmt.body) st
        else st
    emit_trailing _ _ st = st

    abbrev start_scan : Bool → Scan
    start_scan skip_to_begin = record {
      written = [];
      last_written = 0;
      locations = [];
      past_begin = not skip_to_begin;
      has_content = false;
      seg_start = none;
    }

    unfoldable pub scan_body : Bool → Scan
    unfolding on_tokens emit_segment
    scan_body skip_to_begin =
        let st = on_tokens (start_scan skip_to_begin) (lx.tokens stmt.body) in
        emit_trailing st.has_content st.seg_start st

    -- The end of `instrumentBody`: the rest of the body, and the statement around it.
    unfoldable pub rebuild : Scan → List CoveragePoint → Bytes × List CoveragePoint
    rebuild st [] = (stmt.raw_sql, [])
    rebuild st (p ∷ ps) =
        let rest =
          if ltb st.last_written (length stmt.body) then drop st.last_written stmt.body else [] in
        (
          take stmt.body_start stmt.raw_sql
              ++ ((st.written ++ rest) ++ drop (stmt.body_start + length stmt.body) stmt.raw_sql),
          p ∷ ps,
        )

    unfoldable pub instrument_body : Bool → Bytes × List CoveragePoint
    unfolding scan_body rebuild bytes_eq
    instrument_body skip_to_begin =
        let st = scan_body skip_to_begin in
        if bytes_eq stmt.body []
        then (stmt.raw_sql, [])
        else if ltb (length stmt.raw_sql) stmt.body_start
        then (stmt.raw_sql, [])
        else rebuild st st.locations
