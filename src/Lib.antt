-- ===== src/Lib.antt =====
-- telemetry-one-backend takes telemetry frames of a racing game, finds completed laps and their
-- gaps, keeps engineer events, tells which track is driven and where on it, and asks an AI
-- provider for advice under limits.
--
-- The parts and how they interact. The ingest route of internal/api reads a batch of frames,
-- `IngestBatchRequest.Normalize` sorts out the frames that it rejects, the rejections are counted
-- and stored, the others go to the frame store of their session, and the laps that they complete,
-- with their telemetry gaps, go to the lap repository. Events go through the deduplicator to the
-- event store. Sessions have a life cycle of their own. The frames of a session tell which layout
-- of the catalog is driven; a centerline gives the place on it, a tracker the laps, and the
-- corners of the layout the corner of a place and what a lap did in it, of which the corner rules
-- make events. The AI service checks a request, the controller checks a budget and a rate, calls
-- the provider with retries, and accounts for the tokens used; where that fails, a fallback
-- answers.
--
-- Base: what the modules share. Base/Int has Go's `int` and `int64`: ℤ is exact, and `wrap64`
-- gives the word that a sum, a difference or a product becomes. Base/Float has `float64` as a
-- parameter, a type with the operations that the code uses; the examples run on whole thousandths.
-- A map is an association list (Base/Dict), and a sort is by insertion (Base/Sort): where the
-- code's order is total on what it sorts, this is the order that every sort gives. A row of early
-- returns is a list of tests with their errors (`first_error` of Base/Result). Base/Text has the
-- text that the code formats, trims and compares. Where a theorem needs the order of numbers, it
-- takes the record `FloatOrder` of Base/Float: laws of `<` and `<=` on `float64` where no operand
-- is NaN; detection takes besides that equal numbers are `<=`
-- each other.
-- Telemetry: internal/telemetry/frame.go (Rejection, Frame, Batch and `BuildRejectionSummary` in
-- Summary), store.go (Store), rejection_summary_store.go (Summary). `Normalize` of a batch is
-- `normalize_batch`, a loop over `normalize_frame`; `FrameStore.Append` is `append`.
-- Telemetry/Ranges, WellFormed, Intake, Summary/Laws and Store/Window hold the proofs.
-- Laps: internal/laps/lap.go (Lap), gap.go (Gap), sample.go (Sample and Sampling),
-- memory_repository.go (Repository), and `BuildLapSamples` of sample.go (Build).
-- `ExtractCompleted` is `extract_completed`, `CountTelemetryGaps` is `count_telemetry_gaps`,
-- `UpsertCompleted` is `upsert_completed`. Proofs: Laps/Extract, Gap/Bounds, Gap/Order,
-- Sampling/Bracket, Build/Series, Repository/Settle.
-- Events: internal/events/event.go and repository.go (Event), dedup.go (Dedup), store.go (Store),
-- rules.go (Identity and Rules), producer.go (Producer for the off-track stints, Regression for
-- slow laps and the events of a batch, FrameEvents for the calls with options). `Generate` reads
-- the analysis of a corner that Corners/Analysis models. `Validate` is `validate_event`, `Filter`
-- is `filter`. Proofs: Event/Contract, Dedup/Thinning, Store/History, Producer/LastStreak,
-- Producer/OffTrack, Regression/Once, Rules/Generated, FrameEvents/Generated.
-- Sessions: internal/sessions/session.go (Session) and memory_repository.go (Repository).
-- Repository/Lifecycle has the calls of the API as a step relation; Repository/Finish the end. Id
-- has the identifiers of internal/sessions/id.go: `newULID` takes the time and the ten random
-- bytes as arguments. Proofs: Id/Order, Id/RoundTrip.
-- Summaries sums up sessions from the stores (internal/sessions/memory_summary_repository.go); proofs:
-- Summaries/Detail.
-- Geometry: internal/geometry/centerline.go (Centerline) and lap_continuity.go (Continuity). The
-- infinite distance that `Project` starts from is a field of Float64. Proofs: Centerline/Chain,
-- Centerline/Nearest, Continuity/Counting.
-- Tracks: internal/tracks/track.go and the types of its neighbours (Types), catalog.go (Sources,
-- Ranges, Validation, Production), approved_geometry.go (Approved, Capabilities),
-- catalog_summary.go (Selectable), detection.go (Detection). The map of identifiers that Go passes
-- by reference is a value that each check returns. Proofs: Validation/Accepted,
-- Capabilities/Prepared, Selectable/Listed, Selectable/Agreement, Detection/Candidates,
-- Detection/Found.
-- Corners: internal/corners/resolver.go (Resolver) and analysis.go (Analysis). Resolver/Placed
-- and Resolver/Apart have what the checks of the catalog give the resolver: corners without a
-- common place. Proofs:
-- Resolver/Unique, Analysis/Throttle, Analysis/Measured.
-- Ai: internal/ai/controls.go in Error, Budget, Retry and Controller, with the provider's answer
-- and errors of gateway.go. The clock, the sleep, the context, the hooks and the provider's call
-- are the parameters `World` and `Hooks`. Input has the checks of input.go and gateway.go, Context
-- the summary of context.go, Fallback fallback.go, and Service service.go, which goes through the
-- controller; the text of an error, `%.2f` and the length of the prompts are arguments. Proofs:
-- Retry/Attempts, Retry/Backoff, Controller/Charges, Fallback/Answers.
-- The Examples modules run the theorems at concrete values.
--
-- Bounds and fuel. Every loop is structural recursion on its list but two. The retry loop recurses
-- on the number of attempts left: that is the bound of the code's own loop. The loop of
-- `BuildLapSamples` has fuel for its buckets: one more than a number of meters that no frame of
-- the lap reaches is enough. The bounds on numbers are those of the words: times up to 2 ^ 63
-- where a difference of two is taken, up to 2 ^ 61 where the gap threshold is four times a
-- difference, up to 2 ^ 48 ms in an identifier, 2 ^ 62 updates of a lap counter, a distance limit
-- and a step of samples that are together below 2 ^ 63, and a largest backoff of (2 ^ 63 - 1) ns.
--
-- A method under a lock is one step. A nil receiver is left out. `ctx.Err()` is an argument of the
-- operations where it matters (`done`), and elsewhere the context is live.
--
-- Not modelled: the Postgres repositories and migrations, the OpenRouter client, configuration,
-- logging and the commands, which are input and output; the HTTP handlers of internal/api, the AI prompts and audit, trackbuilder, sessionexport and admin, which stand beside
-- these parts; the data of the catalog (internal/tracks/seed.go) and the decoding of JSON.
pub mod Base
pub mod Telemetry
pub mod Laps
pub mod Events
pub mod Sessions
pub mod Ai
pub mod Geometry
pub mod Tracks
pub mod Corners
