-- ===== src/Lib.antt =====
-- Formal model of the Rongta F11 appliance (the Go code under Appliance/).
--
-- The appliance prints on a thermal printer what happens on a Twitch channel: cheers as banners,
-- gifts of subscriptions and raids as pages. A message of Twitch is parsed into an event; a
-- processor reserves the event in a journal and calls a command; the command draws a page and makes
-- a print job of it: the page is dithered into rows of dots, the rows are compressed with one
-- Huffman code, and the job is a stream of frames with checksums. Each command decodes its job
-- again and compares it with the page before it hands it to the spooler, and the daemon decodes a
-- job before it lets it through to the printer, so decoding is written against arbitrary bytes.
--
-- Base and its children hold the shared parts: Base/Tests the Boolean tests, Base/Lists lists of
-- bytes with Go's indexing, Base/Words the conversions and little-endian words, Base/Outcome the
-- result of Go code (a value, an error by its text, a panic, or a loop out of fuel), Base/Ends the
-- predicate that a computation returns a value with a property or an error, Base/Reads the bounds
-- of an index or a slice expression, behind which Go panics, Base/Xor the laws of the exclusive or.
-- Text has strings as lists of runes, with what the code uses of the packages strings and strconv
-- (fields is Fields, trim_space TrimSpace, split Split, itoa Itoa), and its children the laws of
-- these.
--
-- Protocol models Appliance/internal/protocol/protocol.go:
--   Protocol/Checksum: crcSeed, Checksum (checksum).
--   Protocol/Frame: Frame, EncodeFrame (encode_frame), decodeFrames (decode_frames).
--   Protocol/Huffman: node (Tree), Huffman, newHuffman, BuildHuffman, SerializedTraversals, Encode;
--     Protocol/Huffman/Decode: Decode.
--   Protocol/Raster: Monochrome, NativeMonochrome.
--   Protocol/Rebuild: treeFrom (tree_from), its closures build and validate.
--   Protocol/Job: Settings, DecodedJob, EncodeRowFrame, EncodeJob, EncodeNativeJob, encodeRows,
--     DecodeRow, DecodeJob (decode_job).
-- Gift models Appliance/internal/twitchgift/gift.go: the collector, NewCollector (new_collector),
-- Accept (accept), FlushDue (flush_due) and finish, which gathers the recipients of one community
-- gift from a stream of events, and hands the gift on once it is complete or its window is over;
-- Gift/Run has runs of calls. Gift/Notice: ParseNotification (parse_gift), ParseTestCommand,
-- NextDue (next_due), HasPending, and ParseTestNotification of print.go beside it.
-- Twitch models Appliance/internal/twitchbanner and twitchraid, and the printing of twitchgift:
--   Twitch/Journal: Journal, OpenJournal (open_journal), append, ReserveEvent with Reserve
--     (reserve_event), Submitted (submitted); the file is a list of lines.
--   Twitch/Cheer: Cheer, cleanWord, boundedText, PrepareCheer, RuneSafePrefix; Twitch/Cheer/Notice:
--     ParseNotification (parse_cheer), ParseChatCommand. Twitch/Names: cleanName. Twitch/Raid:
--     ParseNotification of twitchraid (parse_raid).
--   Twitch/Process: Process of the three processors, over one step that they share; Twitch/Printer:
--     Print of the three printers; Twitch/Process/Run: runs of all of them on one journal, with new
--     starts of the program.
--   Twitch/Callback: OAuthCallbackHandler. Twitch/Api: twitch.go (NeedsRefresh, Validate,
--     listSubscriptions, DeleteRequiredSubscriptions, VerifyRequiredSubscriptions, Subscribe...,
--     UserByLogin, ExchangeCode, RefreshToken, tokenRequest).
--   Twitch/Device models Appliance/internal/twitchdevice/client.go: Start, Poll (poll), validate
--     (identify), formStatus, sameScopes; Twitch/Device/Save: Save (save_authorization), atomicWrite.
-- Pages models Appliance/internal/giftpage/page.go and raidpage/page.go: the cleaning of names, the
-- checks, and what Render places where.
-- Commands models Appliance/cmd/bannerprint/main.go, giftprint/main.go and raidprint/main.go:
--   Commands/Stream: the job and the check of it in build; Commands/Queue: queuePattern, resolveQueue,
--     verifyQueue; Commands/Crop: cropToInk; Commands/Spool: the call of lp; Commands/Banner and
--     Commands/Receipts: parseArgs, build, jobTitle and run.
-- Setup models Appliance/internal/setupstate/state.go: State, New, Completed, Complete, validate,
-- decodeLegacy, decodeStrict; Setup/Store: Load and Save.
-- Disk models the replacing of a file that Save of setupstate and atomicWrite of twitchdevice
-- share: the system calls in their order, what each does to the temporary file and to the file, and
-- whether the data are on the device. A file that is renamed before its data are synced is
-- `unsynced`, one that a power failure may cut off; a write that fails leaves a part of the data in
-- the temporary file. That a rename is atomic, and that synced data stay, is what the system
-- promises.
-- Render models the reading of pages in Appliance/internal/render/pgm.go: token, ParsePGM,
-- ParsePGMHeightRange and ParsePGMRange.
-- Support models Appliance/internal/supportbundle/redact.go: RedactJSON (redact_json), redactValue,
-- sensitiveKey (is_sensitive) and ScanCanaries.
-- The modules below each of these hold its lemmas, and the modules named Tests the concrete runs.
--
-- Numbers. Machine integers are ℕ with the wrap-around of byte, uint16 and uint32 written out. An
-- int that the source checks to be positive, such as a width or a height, is a ℕ, so a negative one
-- is not represented; the source refuses it by the same test that refuses 0. The product of width
-- and height in ParsePGMRange wraps as an int of 64 bits. A negative number of missing names, which
-- giftpage and giftprint refuse, is not represented, nor is one of bits, which is below 1000 as 0
-- is. Other ints are ℕ without an upper bound. Times are counts of nanoseconds in Gift and of
-- seconds in Twitch/Api and Twitch/Device, and in Setup seconds since 1970 or the zero time.
--
-- Indexes. What decodeFrames, treeFrom, DecodeRow and DecodeJob read of a slice by an index or a
-- slice expression is a panic when it is not there. Elsewhere the source reads pixels, rows and
-- runes behind a test of the same length, in a loop or by range, and get_or with a default is used
-- there.
--
-- Loops. A Go loop over an index is a recursion on the rounds left. decode_frames_loop has the
-- length of the stream as fuel, since a round takes at least one byte; join_all the number of
-- trees, since a round takes one off; build one more than the number of words, since a call takes
-- one word; rune_safe_prefix the length of the string, since a round takes a byte off. Running out
-- is the outcome `stuck`. resolve_queue has fuel for two calls: what it calls itself with is not
-- empty. insert_commas has the number of digits, and list_pages the 20 pages of the source.
--
-- Bounds. DecodeJob limits a stream to 64 MiB. A row's payload is taken here to be at most 64 bytes
-- for each byte of the row, so 5000 lines are sure to stay below; Appliance/internal/render makes
-- at most 2842 lines, bannerprint at most 3045, and a page has 2233.
--
-- Parameters. What is not in the repository is an argument: the decoding and encoding of JSON (a
-- function from bytes to the fields that are read), package flag, strings.EqualFold, ToLower and
-- ToUpper, sort.Strings, url.Parse, the tables of package unicode, utf8.ValidString, strconv.Atoi,
-- SHA-256, the regular expression that finds a job's id, the painting of a page with a font, what a
-- command or a server answers, and how each write to a file ends (for the journal: before a byte,
-- within an entry, before its newline, unsynced, or well). What a theorem asks of them stands in
-- its hypotheses.
--
-- Errors are told apart by the text that the source gives them; a wrapped error keeps the inner
-- one, and what an error prints of its operands is left out, but for the number of a line or a row.
-- Maps are association lists, sets lists. Calls on a journal come one at a time, as its mutex makes
-- them. Memory, and the sharing of slices, are not modelled: the source never writes to a slice it
-- has passed on.
--
-- Not modelled. Appliance/internal/banner and the commands f11d, f11-support, f11-setup-helper,
-- f11-setup-wizard and twitch-banner are not modelled. Of render, FitGrayCanvas, which scales with
-- floats, FitGrayHeadCanvas and CenterPadGray are left out; of twitch.go, AuthorizationURL,
-- ValidateToken and doJSON, which make HTTP requests; of twitchdevice New and Public; of
-- supportbundle RedactText, a list of regular expressions; of the pages the drawing of glyphs,
-- boxes and confetti; of the commands the files of a preview, the font size and inches of a report,
-- and the writing of the report. The desktop application and the deployment files are left aside:
-- they are not part of the Go code.
pub mod Base
pub mod Commands
pub mod Gift
pub mod Pages
pub mod Protocol
pub mod Disk
pub mod Render
pub mod Setup
pub mod Support
pub mod Text
pub mod Twitch
