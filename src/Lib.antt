-- ===== src/Lib.antt =====
-- Verification of twitch-bot, a Twitch chat bot in C++.
--
-- The program has three layers. lib/net is an HTTP client: URLs, redirects, chunked bodies, cookies,
-- encodings. lib/twitch_core is the bot: include/tb/parser turns a line of IRC into a message,
-- src/irc_client.cpp cuts the frames of the WebSocket into lines and writes chat messages,
-- src/command_dispatcher.cpp routes a message to a handler, src/helix_client.cpp keeps the token that
-- the bot logs in with, and src/twitch_bot.cpp supervises the connection. app registers the commands
-- !join, !leave and !channels, which change a store of channels that is written to a file.
--
-- Files, by the code they model:
--   Prelude          numbers, lists, byte strings, the searches of `std::string_view` and, in Assoc,
--                    the maps from strings
--   Irc.Scan         irc_simd_scan.hpp: scan64, ctz64, pop_lowest, contains_broadcaster_1,
--                    find_space_in_tags_and_flags; Bits, Windows and Flags hold its theorems
--   Irc.Message      IrcMessage and get_tag of irc_message_parser.hpp
--   Irc.Parse        find_first_space_fast, parse_params_and_trailing_fast, parse_irc_line
--   Irc.Client.Gate  send_buffers, ping_loop and close of irc_client.cpp as a step relation; Serial and Spin
--                    hold its theorems
--   Irc.Client.Connect  connect of irc_client.cpp with its handshakes; Secure holds its theorem
--   Irc.Client       read_loop, privmsg_wrap, reply_wrap, the JOIN batches of connect and the bytes
--                    of each command; Frames, Wrap and Join hold its theorems
--   Dispatcher       CommandDispatcher of lib/twitch_core (src/command_dispatcher.cpp): registration and
--                    routing of the parser's messages; Routing holds its theorems
--   Bot              TwitchBot of lib/twitch_core/src/twitch_bot.cpp: joining, saying, the handler of a
--                    line and the pauses of run_bot; Routes and Pauses hold its theorems. Rounds is
--                    run_bot with the clients it uses; Served, Waits, Tail and Kept hold its theorems
--   Helix            HelixClient of lib/twitch_core/src/helix_client.cpp; Form is form_urlencode and Dates
--                    the dates, Requests and Counts hold the theorems of the token and the requests; Http is its
--                    requests as calls of Net.Client, with theorems in One and Rejected
--   Config           lib/twitch_core/src/config.cpp; Required holds the theorem on loading, Fetch and Token that
--                    on the update of the access token
--   Toml             what Config, App.Integrations and App.AppStore use of toml++, with an instance in Tree
--   App.Store        ChannelStore of app/src/channel_store.cpp; Steps has its runs, Load, Synced,
--                    Restart and Flush its theorems
--   App.AppStore     AppChannelStore of app/src/app_channel_store.cpp; Written and Saved hold its theorem
--   App.Integrations Integrations of app/src/integrations.cpp; Names and Lookup hold its theorem
--   App.Commands     control_commands of app/src/control_commands.cpp and the start of app/src/main.cpp;
--                    Authority and Agreement hold its theorems
--   App.Main         main of app/src/main.cpp, over Config, App.Commands and Bot.Rounds; Joined holds its theorem
--   Net.Url          lib/net/include/tb/net/http/url.hpp: parse_url, resolve_url, origin and target
--                    over them RoundTrip, Climbs with Dots, and Resolve hold the theorems
--   Net.Chunked      lib/net/include/tb/net/http/chunked_encoding.hpp: the decoder and its state word
--   Net.Cookie       Cookie, parse_set_cookie and build_cookie_header of lib/net/src/tb/net/http/cookie.cpp;
--                    Jar is CookieJar of cookie_jar.cpp, with its theorems in Stored, Sent and Lines
--   Net.Encoding     lib/net/include/tb/net/http/encoding.hpp
--   Net.Mime         lib/net/src/tb/net/http/mime.cpp: media types; Print holds its theorem
--   Net.Redirect     lib/net/include/tb/net/http/redirect_policy.hpp
--   Net.Client.Stream  stream_get of lib/net/include/tb/net/http/http_client.hpp; Ends, Silent and Fuel hold its
--                    theorems
--   Net.Client.Pool  the connections that perform and stream_get take and return; Keys, Owned and
--                    Interleaved hold its theorem
--   Net.Decoders     lib/net/src/tb/net/http/gzip_decoder.cpp and br_decoder.cpp: definitions with runs
--   Net.Client       perform and get_with_retry of lib/net/src/tb/net/http/http_client.cpp; Hops holds
--                    their theorems
--   Tests modules    runs on concrete lines, frames, commands, stores, cookies, URLs and replies
--
-- A pointer into a line is the suffix that begins there, and a view is the list of its bytes; a byte
-- is a number below 256. A 64-bit mask is a natural number: its bits are those of distinct
-- positions below 64, so no sum of them overflows, and `bits - 1` is taken where bits is not 0.
-- The masks are those of the scalar loop of scan64, which AVX2, SSE2 and NEON replace. The signed
-- numbers of the dates are residues of two's complement.
-- Each loop runs on fuel: the length of what is left to read, of which each round takes a byte at
-- least, or 64 for a loop that clears a bit of a mask. The theorems are about the loops at that
-- fuel, and hold for every length. The two loops of resolve_url have a bound of their own: they need
-- not end, and `none`, or `endless` for a call of the HTTP client, is a run that has not ended. The
-- hops of a redirect are counted by max_hops and the attempts of a retry by max_attempts. The loops over
-- zlib and brotli have a fuel of their own too: no theorem says that they end, and the one over brotli
-- does not where the input is cut short.
--
-- What is not under the repository is a parameter: toml++ and the files (`Toml`, with `IsToml`
-- and, for the store, `IsFaithful` for what is printed and parsed again), the sockets, the
-- decompressors and the JSON reader of the HTTP client (`Web`), zlib and brotli (`Zlib`,
-- `Brotli`), getenv, glaze's values and the clock, `std::get_time`, `std::sort` and the random
-- draws of the pauses. The token's client takes the HTTP client by an interface of its own
-- (`World`): any replies; Helix.Http has its requests over the model of that client. The store
-- runs as a step relation whose operations come between the steps of the timer's handler; the
-- commands run one at a time, and what they send is sent. The rounds of run_bot run one behind the
-- other: what a line spawns has ended before the next round, whose connect finds the stream as the
-- constructor leaves it, and ping_loop is in Irc.Client.Gate alone.
--
-- Not modelled: timers, sockets and coroutine scheduling themselves (Boost and OpenSSL), the
-- metrics and the pauses between attempts of the HTTP client (floating point), the build;
-- lib/twitch_core/src/channel_store.cpp is not compiled. A send hands a frame to send_buffers, whose
-- failure closes the connection. Dates of cookies before 1970 are not represented, and of the files
-- that the two stores write no bytes are lost at the close of the stream.
mod Prelude
pub mod Irc
pub mod Dispatcher
pub mod Net
pub mod App
pub mod Bot
pub mod Helix
pub mod Toml
pub mod Config
