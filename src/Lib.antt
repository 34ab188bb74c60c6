-- ===== src/Lib.antt =====
-- Zero Shadow: asset correlation, risk, remediation, ownership and work queues, the metadata
-- of the evidence keys, the timeline of discovery batches, the comparison and
-- authentication of snapshots, and the workflow that stores its evidence.
--
-- The program reads asset observations and findings, as untyped JSON, from authorized sources. The
-- observations are validated and correlated into assets; a finding is validated and scored; a plan is
-- made from the score; the owner of the asset is resolved from its tags by a directory; and the plans
-- are put into one queue for each team. Each step is a pure function of its arguments, which raises
-- an error where it would have to guess. A workflow runs the steps on one fixture and stores the
-- result in five tables, in one transaction.
--
-- The files, and the code that they are about:
--   Risk           engine/risk.py: FindingEvidence.from_dict (from_dict), _band (band_of),
--                  score_finding. A points table is an association list, and a missing key the
--                  KeyError of the look-up.
--   Remediation    engine/remediation.py: _owner (owner_of), plan_remediation with its guards and
--                  due date (due_date_of) and the rest that cannot fail (plan_of).
--   Ownership      engine/ownership.py: _tag_map (tag_map), OwnershipDirectory.from_dict (from_dict)
--                  and OwnershipDirectory.resolve (resolve, and resolve_tags behind its validation).
--   WorkQueue      engine/work_queue.py: the body of the first loop of build_work_queue_document
--                  (assign), the loop (group_items), the second loop (build_queues), the document.
--   Models         engine/models.py: AssetObservation.from_dict (from_dict) and identity_keys.
--   AssetGraph     engine/correlation/asset_graph.py: find and union of correlate_assets on the list
--                  of parents, which is a function on indices; the merging loop (merge_items), the
--                  grouping loop (group_items); Consolidation has _consolidate, correlate_assets.
--   Keyring        database/evidence_keyring.py: _time (time_of), authorize_key_use.
--   Timeline       database/ec2_observation_timeline.py: the two inner loops of build_timeline
--                  (observe_all, miss_all), and the outer loop in Timeline.Batches (advance); and
--                  _records of database/ec2_inventory_compare.py (records_of). Timeline.History says
--                  what a history of batches prescribes, apart from the variables of the loops.
--   EvidenceDiff   database/evidence_diff.py: _validate_snapshot (validate_snapshot),
--                  _section_changes (section_changes), compare_snapshots. `_canonical`, a json.dumps
--                  with sorted keys, is a parameter (canonical), and so is == on values (equal).
--   EvidenceAuth   database/evidence_auth.py: _authorize (authorize), _message (message),
--                  create_manifest and verify_manifest, which call EvidenceDiff and Keyring. A
--                  manifest is verified as JSON and created as a record, which manifest_fields
--                  writes as JSON. HMAC-SHA256 (hmac) and str.encode (utf8) are parameters.
--   Rendering      the to_dict methods of engine/, as JSON values (risk_factor_fields, plan_fields,
--                  observation_fields and the like). date.isoformat is a parameter.
--   Fixtures       engine/discovery/fixture_discovery.py: load_fixture, behind the reading of the file.
--   Repository     database/repository.py and database/schema.sql. Tables has the rows, the keys and
--                  references, and each SQL statement (insert_asset, upsert_asset, ...); Bundles has
--                  EvidenceBundle.validate (validate); Storing has store_inventory, store_bundle,
--                  _store_decisions (store_decisions) and store_assessments, each from the tables to
--                  a result and the tables. A `with self.connection` block that raises leaves the
--                  tables as they were (transaction). The OverflowError of astimezone (overflow) and of
--                  a number beyond 64 bits (too_large) are errors too. Histories has the databases that calls of the
--                  three methods lead to (Reachable).
--   Reader         database/evidence_reader.py: read_asset and read_inventory. Each of the five SELECTs
--                  reads those tables as they are then (Selected), since no transaction is open.
--   Workflow       engine/evidence_workflow.py. Specs has load_workflow_spec; Runs has
--                  run_fixture_workflow (prepare, before it stores; finish, which stores), which
--                  calls Fixtures, AssetGraph, Risk, Ownership, Remediation and Repository. Outputs
--                  has run_workflow_to_sqlite; Retries has run_workflow_once of
--                  engine/workflow_runs.py, _load_retry (load_retry, check_manifest) and the manifest.
--                  The directories are a dict from paths to the three files of a run (Runs), and a
--                  file is its contents, of any type. What other processes do between the test for
--                  the directory and its making is a function on that dict (others), and what
--                  shutil.rmtree leaves of one that could not be completed is a parameter (remains).
--   Prelude        what they share: JSON values, dicts in insertion order, texts as code points,
--                  Python's stable sort, dates, integers and results.
--   Examples       runs of the code on concrete values.
--
-- What stands for code that is elsewhere: str.lower (lower), the hexadecimal SHA-256 digest (sha256),
-- ipaddress.ip_address (ip_text) and datetime.fromisoformat with the conversion to UTC (parse) are
-- parameters. So are read_ec2 of database/ec2_inventory.py (read), which reads a SQLite file, `==` on
-- values (equal) and the digest of a document (digest), json.dumps (dumps), date.isoformat
-- (isoformat), pathlib and the parsing of dates (Paths, Clock), and the CHECK constraints of one row
-- (Checks), and what is used of files (Disk). Nothing is assumed of them but what a result
-- below says. A date is its proleptic ordinal, from 1 to 3652059, and an instant of the keyring or of a
-- batch a number.
--
-- Bounds: a loop over a list is a recursion on it. `find` climbs for at most `index + 1` rounds, which
-- is enough in a forest whose parents lie at or below their index, as they always do: a fixed point
-- is reached, since the index falls in each round.
--
-- What is not modelled: the wording of error messages (an error names its case and its field), the
-- isinstance guards on arguments whose type is fixed by the annotations, files, command lines, SQLite
-- but for what its statements do to the tables, the triggers of the schema, which no statement of the
-- program fires, failures of the SQLite file itself (a lock, a full disk),
-- other connections that write while a method of the repository runs, texts with a lone
-- surrogate, which cannot be encoded, and the collectors.
pub mod Prelude
pub mod Risk
pub mod Remediation
pub mod Ownership
pub mod WorkQueue
pub mod Workflow
pub mod Models
pub mod AssetGraph
pub mod Keyring
pub mod Rendering
pub mod Fixtures
pub mod Repository
pub mod Reader
pub mod Timeline
pub mod EvidenceDiff
pub mod EvidenceAuth
mod Examples
