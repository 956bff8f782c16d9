-- ===== src/Lib.antt =====
-- Verification of the XR browser's build-side programs: the Python code that compiles filter lists,
-- serves updates and keeps the patch queue.
--
-- The parts, each in the file of its name and in the folder beside it:
-- Prelude: texts as lists of code points, Python's `str` methods on them (`strip`, `split`,
-- `partition`, `find`, `splitlines`), decimal numerals and the laws of these.
-- Json: JSON values and `canonical`, the printer that xr-lists/compile.py and
-- release/server/refimpl/update_server_ref.py share (`json.dumps` with sorted keys).
-- ListCompiler: xr-lists/compile.py. Reason holds the refusal tokens, Grammar is
-- `filter_grammar_refusal`, Domains the two splitters, Cosmetic, Network and Line the parsers of a
-- line, Bundle `compile_list` and `compile_config`. A function has the name it has in the source; a
-- loop is a function on the list it runs through.
-- BundleCheck: tools/list_bundle_check.py. The file itself checks the refusal table of a bundle, on the
-- tables that ListCompiler makes; Schema and Binding check the manifest that ListPackage makes, State
-- the apply state.
-- ListPackage: the programs of xr-lists around a compiled bundle. Digest is bundle_bytes.py, Manifest
-- the manifest of sign.py, Bundled the dictionary in which ListCompiler's bundle reaches them. They and
-- the checks read JSON values; a Python exception is `none`.
-- UpdateServer: release/server/refimpl/update_server_ref.py. Version is `parse_version`, Check the
-- update check of one application, Handle the tests of a request and the loop over its
-- applications, Render the JSON of the answer and `handle`. Answer is the result of a step: a
-- value, a typed refusal of the request (`err` in the source) or an exception that nothing
-- catches. Spec is what `load_spec` returns.
-- PatchQueue: build/patching/apply.py. Paths is the path policy, Ledger the dictionary of applied
-- patches, Git the four calls of `git apply`, Command the command for apply, verify and revert: `step`
-- is the body of its loop, `run` the loop over the selected patches, `cmd` the command with its early
-- ends. A Checkout is the working tree and the ledger file; a run that ends early leaves the tree as it
-- is then and writes no ledger.
-- Upstream: build/upstream/classify.py. Class holds the classes, their order and `verdict_of`,
-- Classify `classify_file` and `classify_patch`. It shares the path test with PatchQueue.
-- GnArgs: build/gn/resolve_args.py, the parser of argsets, their merge and the test of the allowlist.
-- Retirements: build/upstream/retirements.py, the ledger of retired patches: `append_retirement` and
-- the lint of its rows against the manifest and the patches that the manifest's history has removed.
-- Fetch: build/upstream/fetch.py. The file itself has the allowlist and the World: the attempts made,
-- the URLs asked for, the pauses, the counters and the cache. Http is `http_get`, Gitiles its callers,
-- Fixture the offline source, Calls the calls that an engine can make, with the steps they take.
-- ExceptionLedger: tools/exception_ledger_check.py. The file itself reads the tables of the page
-- (`ledger_rows`, `_scope_ledger_rows`), Scope is `parse_scope_cell`, Rows has `check_shield` and
-- `check_cosmetic`, Matrix `check`; Reading tells which lines are read as rows. A failure is a value
-- in place of its message.
-- SchemaCheck: tools/xr_schema.py, `_deref` and `_validate`. The source recurs on the value; here each
-- value of an object is turned into what checks it, and the loop over the properties applies these.
-- Conforming says which documents pass, by their values and those of the schema.
-- Png: build/qa/visual/pngcodec.py. Filter is `_paeth` and `_unfilter`, Specified the filters that the
-- PNG specification has, Write `_chunk` and `encode`,
-- Read `decode`, with `turn` for the body of its loop over the chunks and `read_rows` for that over
-- the rows; where the source advances an offset, the model drops what it has passed.
--
-- Parameters. Platform stands for what `handle` takes from Python and from hashlib: the UTF-8
-- decoder, `json.loads`, `repr`, SHA-256, `str.isdigit` and the digits that `int` reads, with the
-- length from which `int` refuses a text. KnowsAscii is the hypothesis on it,
-- IsConsistent that on the spec, and FrameReads that on a frame: no version that `int` raises on.
-- Tests instantiates each of them, on a platform with such digits and such a length. Git and Tools stand for git on
-- a working tree of any type, IsReversible for what `git apply --reverse` promises, and `digest` for
-- SHA-256. Python is `==` on JSON values, the floats that are zero, and SHA-256 of a
-- text; IsPython says what the checks rely on. Platform in Fetch
-- answers the attempts by their number and splits URLs. Reader in ExceptionLedger is what `int` and
-- `date.fromisoformat` read in a cell. Zlib is the module zlib: a round trip holds where it restores
-- what it has compressed.
--
-- Numbers are natural numbers. Where a JSON number can be negative it is `neg n` for -(n + 1); a
-- float is held as the text it is printed as. Printing a number in decimal runs on fuel, the number
-- plus one, of which each digit takes one; `value-decimal` in Prelude/Decimal shows that it is
-- enough. The loop of `decode` over the chunks runs on one more than the bytes of the file, of which
-- each round takes twelve at least. Every other loop is structural recursion on the list it runs through.
--
-- Not modelled: the reading of files and of the command line, the HTTP front end of the server, and
-- the other programs of the repository.
pub mod Prelude
pub mod Json
pub mod ListCompiler
pub mod UpdateServer
pub mod PatchQueue
pub mod Upstream
pub mod BundleCheck
pub mod GnArgs
pub mod Retirements
pub mod Png
pub mod ListPackage
pub mod Fetch
pub mod ExceptionLedger
pub mod SchemaCheck
