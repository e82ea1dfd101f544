-- ===== src/Lib.antt =====
-- A model of git-anchor (crates/git-anchor) and git-attest (crates/git-attest), with what holds of it.
--
-- An anchor is a durable pointer to lines of a file at a commit. It is captured from a revision or
-- from the working tree, has an id that hashes its identity alone, and is mapped onto later revisions
-- by oracles: exact tracing through the diff, and fuzzy search by MinHash fingerprints. A binding is an
-- anchor or a reference to a commit, a tree, a pair of trees, or a commit with a tree; it is validated
-- against a revision. A structural diff compares two stored trees. A claim is a signed commit on the ref
-- of its target: claims about one target form a chain that is appended to by compare and swap, and a
-- revocation is a claim on the chain of the claim it revokes. Keys are published as claims too: a key is
-- a chain of a first claim and rotations, each signed with the key before it, and a claim is verified
-- with the key at the end of such a chain. Two command lines put these together: one captures bindings
-- and writes entities that hold them, the other signs, revokes, verifies and lists claims.
--
-- The files and the code they model:
--   Error        crates/git-anchor/src/error.rs
--   Lines        crates/git-anchor/src/util.rs: line boundaries, byte_span_of, span_to_lines,
--                lines_to_span; LineRange and Span of anchor.rs
--   Fingerprint  crates/git-anchor/src/fingerprint.rs, and minhash_similarity of oracle.rs
--   Repository   the operations of gix and its companions that the code calls, as a parameter, with
--                what their documentation promises (IsLawful)
--   Anchor       crates/git-anchor/src/anchor.rs; resolve_commit, commit_at and read_blob of util.rs
--   Oracle       crates/git-anchor/src/oracle.rs
--   Diff         crates/git-anchor/src/diff.rs
--   Binding      the types, identities and handles of crates/git-anchor/src/binding.rs and handle.rs
--   Validity     revalidate and its parts, of crates/git-anchor/src/binding.rs
--   Pin          crates/git-anchor/src/pin.rs
--   Claims       the chain of claims: crates/git-attest/src/chain.rs, envelope.rs, the stored envelope of
--                schema.rs and the errors of error.rs
--   SignedBytes  signed_bytes of crates/git-attest/src/verify.rs
--   Verdict      the verdict and the ssh verifier of crates/git-attest/src/verify.rs; AttestKey of key.rs
--   Keys         the resolution of keys of crates/git-attest/src/key.rs, the verification of commits and
--                claims of verify.rs
--   KeyWrites    add_key, rotate_key and write_key of crates/git-attest/src/key.rs; the registration of
--                schemas of schema.rs
--   Documents    what both command lines ask of facet-value, facet-json, facet-git-tree and the document
--                builder of git-store, as a parameter; resolve of the two main.rs (resolve_node)
--   AnchorArgs   crates/git-anchor/src/main.rs: parse_lines_arg, cwd_relative_path, build_binding
--   AnchorCli    crates/git-anchor/src/main.rs: the search for the fields of a schema, and the document
--                that inject writes
--   AnchorCommands  crates/git-anchor/src/main.rs: the subcommands, and main (run_anchor)
--   AttestArgs   crates/git-attest/src/main.rs: TargetArg, object (object_named), target (target_of),
--                parse_json, prompt_document
--   AttestOutput crates/git-attest/src/main.rs: what is printed of claims and verdicts
--   AttestCli    crates/git-attest/src/main.rs: the subcommands, and main (run)
--   Signer       crates/git-attest/src/signer.rs
--   Base         shared types, operators and lemmas
--   Tests        concrete inputs
-- The children of each file hold its proofs.
--
-- How the state is modelled: the code reads a repository and returns values, so that its functions are
-- functions of a record of repository operations. The one write, the blob that capture_worktree hands
-- to the object database, is returned next to the result. An early return or `?` is a Result; an index
-- out of bounds is the error `panic`. Byte strings, and texts in UTF-8, are lists of byte values; object
-- ids are natural numbers; 64-bit arithmetic is written out as checked, saturating or wrapping, and
-- `usize` is 64 bits wide. A confidence is the pair of its matching slots and all slots, not the
-- rounded quotient. The stores of claims, keys and entities are passed through each operation that
-- changes them (Base.Action). What other writers do to the store of claims is a function that the
-- operation takes: they act twice within each attempt of append, between its two reads and before the
-- publication. What a command prints is its result or a list of lines. What the code uses of Rust's
-- `str` (UTF-8, trimming, splitting, reading numbers, lossy decoding) and of Unix paths is written out on
-- bytes in Base.Strings, AnchorArgs and Signer. `HashMap` is an association list, and the order in which
-- one is iterated is a parameter.
--
-- Fuel: the recursion of diff.rs over trees and of tree_contains over subtrees takes fuel, and running
-- out is a result of its own, `exhausted`. Fuel above the depth of the trees is enough: see
-- Diff.Ends and Validity.Trees, where a rank that falls from a tree to its subtrees bounds the depth.
-- The loop of signed_bytes has the length of the commit plus 1. The retry loop of append has no bound in
-- the code; its fuel is the number of attempts; see Claims.Append for any number, Claims.Numbered
-- for the sequence numbers, and Claims.Returns for when an attempt succeeds.
--
-- Not modelled: the libraries underneath (gix, gix-diff, bstr, facet-git-tree, facet-value, facet-json,
-- git-store, ssh-key, clap), which are parameters where the code relies on them, and ssh-keygen; the
-- parsing of options by clap, the opening of the repository, signal handlers and prompts; the display
-- of errors, whose messages are carried as their parts; the layout of refs; tests and their fixtures.
pub mod Base
pub mod Error
pub mod Lines
pub mod Fingerprint
pub mod Repository
pub mod Anchor
pub mod Oracle
pub mod Diff
pub mod Binding
pub mod Validity
pub mod SignedBytes
pub mod Claims
pub mod Verdict
pub mod Keys
pub mod KeyWrites
pub mod AnchorArgs
pub mod Documents
pub mod AnchorCli
pub mod AnchorCommands
pub mod AttestArgs
pub mod AttestOutput
pub mod AttestCli
pub mod Signer
pub mod Pin
pub mod Tests
