-- ===== src/Lib.antt =====
-- Verification of i-filter-imitation, an HTTPS-decrypting proxy that blocks domains and scans
-- downloads for malware.
--
-- The program. The proxy (internal/proxy) decrypts CONNECT tunnels and reads the requests in them in a
-- loop; a request whose Host is in the blocklist is refused, any other goes to the upstream server. The
-- transport below looks at each response: a download of a listed MIME type is handed to the scan
-- manager (internal/scan). A browser is redirected to a page that polls the job of the scan and then
-- offers the file; a command-line client gets the bytes one by one until the verdict is known. The
-- management API (internal/api) keeps the blocklist in PostgreSQL and tells the proxy of it through a
-- Redis set; the certificates (internal/cert) and the log (internal/logger) serve the proxy.
--
-- The parts and their files.
--   internal/proxy/blocklist.go      Proxy/Blocklist: the exact names and the trie of wildcards
--                                    (NewBlocklist, addEntry, getOrCreate, IsBlocked, wildcardBlocked).
--   internal/proxy/tunnel.go         Proxy/Chunked (loopChunkedWriter), Proxy/Framing (loopWriteHead,
--                                    loopWriteBody), Proxy/Tunnel (serveConnLoop and what it writes).
--                                    Proxy/Framing/Message is a client that reads a response from its
--                                    bytes; Proxy/Framing/Infected joins it with Scan/Trickle.
--   internal/proxy/scantransport.go  Proxy/ScanTransport (RoundTrip, handleBrowser, handleCLI).
--   internal/scan/config.go          Scan/Config (ScanConfig, IsScannable, the default rules).
--   internal/scan/util.go            Scan/Filename (filenameFrom and its helpers).
--   internal/scan/cache.go           Scan/Cache (ResultCache; mergeResults is in Scan/Status).
--   internal/scan/clamd.go           Scan/Clamd (the INSTREAM client: ScanReader, streamToClamd,
--                                    readClamdResult).
--   internal/scan/manager.go         Scan/Job (runScan) and Scan/Manager (the map of jobs, StartBrowserJob,
--                                    StartCLIJob, ServeFile, the cleanup).
--   internal/scan/trickle.go         Scan/Trickle (TrickleBody: Read, readOne, flushRead).
--   internal/scan/endpoint.go        Scan/Endpoint (the pages under /scan/).
--   internal/api/blocklist.go        Api/Blocklist (Add, Update, Remove, syncToRedis).
--   internal/api/handler.go          Api/Response (the token test, jsonOK, jsonError), Api/Domain
--                                    (domainRe, isValidDomain), Api/Handlers (handleAdd, handleUpdate,
--                                    handleRemove, pathDomain), Api/ScanConfig/Handlers.
--   internal/api/scanconfig.go       Api/ScanConfig (buildScanConfig, syncScanConfigToRedis,
--                                    UpdateScanSetting, UpdateMimeType).
--   internal/api/pagination.go       Api/Pagination (also the pages of List and AuditLog).
--   internal/proxy/blocklist_sync.go Proxy/Sync (StartBlocklistSync and, with scanconfig_sync.go,
--                                    StartScanConfigSync: their loads, loops and waits).
--   internal/proxy/handler.go        Proxy/Server (ServeHTTP, handlePlain, responseRecorder; also
--                                    magichost.go).
--   internal/proxy/connect.go        Proxy/Connect (handleConnect, connWithReader; also
--                                    timed_transport.go).
--   internal/cert/leaf.go            Cert/Leaf (GetCert, storeMem, evictExpired, saveToRedis, generate).
--   internal/logger/sender.go        Logger/Sender (Send, drain, Close).
--   internal/logger/syslog5424.go    Logger/Escape (escapeSyslog, nilify), Logger/Message (Format5424,
--                                    buildSD).
-- Common/Regex describes the matching of package regexp, Common/Integers strconv.ParseInt.
-- Proxy/HostPort describes net.SplitHostPort, and Common holds lists, texts and tests on numbers.
-- Beside each file stand its children: laws, and the runs and examples in Tests.
--
-- How state is modelled. A function that changes a shared object takes it and returns it: the cache, the
-- manager, the trickling body, the loop of a tunnel. `runScan` is a goroutine; its effects that others
-- see (the result sent, uploadDone closed, the body closed) are a list of events in the Job, and its end
-- is given back to the manager by `finish_scan`. A reader beside it is modelled by what it sees at each
-- look (`Look`): how far the file was written and whether uploadDone was taken.
--
-- The goroutines that keep the proxy in step with Redis are step relations (`Step`, and `Turn` with the
-- value in Redis beside them); their theorems hold of every state that can be reached. The modules
-- Proxy/Sync/Blocked and Api/ScanConfig/Limit put the management API, Redis and the proxy together.
--
-- Inputs and parameters. The clock, new ids, what Redis answers, what the clamd peer does, what the
-- file system gives, the two readings of MaxSize in a scan and the answers of the upstream server are
-- inputs, with the reads of a body that fail, the loads from Redis that fail and a ReverseProxy that
-- aborts. SHA-256, http.StatusText, the page of a block and the signing of certificates are
-- parameters. The scanner of a job is a parameter with the law `IsScanner`.
--
-- Bounds. Text is a list of bytes, and letters are folded as ASCII. Numbers are natural; the size of a
-- ScanConfig keeps its 64 bits, and the comparison with a Content-Length is that of int64. The readers
-- of a wire format run on fuel: one round for each chunk and one for the end are enough. The loops of
-- Read end with the list of looks: a call without enough of them still waits.
--
-- Not modelled: the WHERE clauses of the list queries and opening the database, the certificate of the
-- CA, failing writes to an open temp file or to a client, the HTML template, JSON and the range requests
-- of http.ServeContent, TrickleBody.Close, WebSocket bridging, the start-up code (it reads the
-- environment and wires the parts together), the user interface of the management API (TypeScript).
pub mod Api
pub mod Common
pub mod Logger
pub mod Cert
pub mod Proxy
pub mod Scan
