-- ===== src/Lib.antt =====
-- A verification library beside ESPConnect2, a Spotify Connect client in C. Paths are from the
-- repository's root.
--
-- The program. src/esp_spotify.c is the facade: it starts a ZeroConf session (src/zeroconf.c), which
-- waits for a phone to POST encrypted credentials and decrypts them; it logs in to an access point
-- (src/mercury.c) with a handshake in protobuf messages and then exchanges packets under the Shannon
-- cipher; it asks for tokens, CDN addresses and AudioKeys (src/spclient.c) and decrypts audio
-- (src/decrypt.c). Sockets, the cipher and the calls of OpenSSL are in src/platform_posix.c.
--
-- The files.
--   Common: tests, lists, bit operations, machine words, C strings.
--   Shannon: the cipher of src/platform_posix.c (struct platform_shannon_t is Cipher; platform_shannon_X
--     is set_key, set_nonce, encrypt, decrypt, finish). Valid, Keys and Loops carry its invariant,
--     Pending the count of the bits of a word that are pending, RoundTrip the two directions; Bytewise
--     has a specification byte by byte and Header a message that is decrypted in two calls. Esp32 and
--     Windows have the ciphers of src/platform_esp32.c and src/platform_windows.c, over the same key schedule and loops. Fresh is about that schedule,
--     Ports about the three ciphers as one interface: Ports/Keep on what the calls leave of a key,
--     Ports/Pairs on platform_shannon_key_pair.
--   Proto: pb_buf_t, pb_reader_t and the pb_ functions of src/mercury.c; Messages has the builders
--     and Messages/Built their fields. Varint, Fields, Message, Nested and Skip are about the wire format.
--   Tcp: platform_tcp_connect, _read and _write over every way in which the kernel splits the bytes.
--   Tcp/Server: the HTTP server of the pairing on POSIX, with Server/Whole on what it writes and
--     Server/Balance on its sockets.
--   Https: platform_https_get of src/platform_posix.c over a TLS record of its own, and what becomes of a
--     response; Requests has what it prints, Windows the client of src/platform_windows.c.
--   Crypto: the functions of OpenSSL, as parameters without laws, and platform_dh_compute_shared.
--   Mercury: mercury_session_t, packet framing, mercury_send and mercury_recv, with Framing on what is
--     received, Sending on what is sent and EndToEnd on both; Response and Login have the parsers and
--     mercury_login5, Response/Found and Response/Welcomed what the parsers make of well-formed
--     answers, Login/Connected what its result says and Login/Kept what it leaves alone.
--   Zeroconf: Query has url_decode and get_query_param, with Query/Pairs on the form; Blob has
--     process_blob, with Blob/Sealed on how a phone masks a block, Blob/Credentials on the fields and
--     Blob/Opened on both ends; Http has what the
--     handler does with the text of a request, Session the handler and the functions of src/zeroconf.c,
--     with Session/Captured on its states and Session/Paired on a pairing from the form to the credentials.
--   Spclient: the token, CDN, metadata and download requests of src/spclient.c, with Token, Cdn and
--     Metadata on what they print and read.
--   Login5: the parser of src/spotify_login5_parse.c, Tokens on what it accepts; Answer has the answer
--     that spotify_login5_get_token of src/spotify_login5.c reads from mbedTLS, Answer/Once and
--     Answer/Parts what becomes of it.
--   Mdns: the advertisement of the service: Windows has the responder of src/platform_windows.c, with
--     Windows/Asked on the questions and Windows/Runs on its thread, Esp32 the registration of
--     src/platform_esp32.c, with Esp32/Items on its records.
--   Player: Audio has src/decrypt.c and spclient_get_audio_key, Facade has src/esp_spotify.c, and
--     Facade/Reached the states that its functions reach.
-- A function of the source that changes a session takes it and returns it. Results below 0 are `fail n`
-- for -n. Each module Tests holds witnesses.
--
-- Numbers. Words of 8, 16, 32 and 64 bits are natural numbers with the wrap-around written out. Positions in
-- a protobuf input wrap at 64 bits, where a length that was read is added.
--
-- Bounds and fuel. A varint is written with fuel 10, which suffices for 64 bits. platform_tcp_read and
-- _write have as much fuel as bytes are asked for; each round takes one at least. A read has as many
-- rounds as the input has bytes left. The loops `while (pb_read_tag ...)` of mercury_login5 take fuel from the
-- caller, and running out of it is the outcome `hang`: an input can make the source loop for ever. The
-- HTTP body loop has fuel 8192, more than its buffer has bytes; the read loop of platform_https_get
-- has the size of its buffer, where each round but the last takes a byte at least. The loop of
-- spotify_login5_get_token takes fuel from the caller; more than the reads that give something is
-- enough. A run of the mDNS thread is the list of its rounds.
--
-- Not modelled. Allocation failures, the freeing of memory, messages to stderr and the dump file of
-- mercury_login5, which change no state; timeouts; of src/spotify_login5.c, which the facade does not reach, the
-- request and the set-up of mbedTLS; of src/platform_esp32.c all but the cipher, mDNS, platform_https_get,
-- whose text is that of POSIX, and platform_http_server_write; of src/platform_windows.c all but the
-- cipher, mDNS, platform_https_get and platform_http_server_write; a SIGPIPE in the session's answers
-- (platform_http_server_write itself has it); vendored and generated code.
pub mod Common
pub mod Shannon
pub mod Proto
pub mod Tcp
pub mod Crypto
pub mod Mercury
pub mod Zeroconf
pub mod Spclient
pub mod Https
pub mod Login5
pub mod Mdns
pub mod Player
