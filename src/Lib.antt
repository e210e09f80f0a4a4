-- ===== src/Lib.antt =====
-- Verification of the SE051 crypto demos: the PKCS#11 demo suite (pkcs11_example/), the SSS demo
-- application (app/), and the command-line application in C++ (cpp_app/).
--
-- The suite is a program that loads a PKCS#11 library by dlopen, opens a session and runs ten demo
-- functions, each a sequence of calls of the library with checks, skips and a cleanup label. The
-- library, cryptoki.h and the C library are not part of the repository. So a function of the suite
-- is a tree of calls (`Prog`): a node is a call with its arguments, its branches are the replies, and
-- `run` follows one library (`Device`), which is a parameter. A local variable is an argument, `goto`
-- a label is a call of the label's function, a loop is a recursion on its table or list, so that no
-- fuel is needed, and all theorems range over every library and every state of it.
--
-- The application runs nine demos one after the other, from ex_sss_entry, up to the first that does
-- not succeed. It is modelled in the same way, over the calls of Plug & Trust (SSS) and of mbedTLS.
--
-- The C++ application reads a command line, opens a session, runs one command on a key, and closes
-- the session. Its functions are trees of the calls of SSS and of mbedTLS, of files and of the output,
-- that end in a value or in what they throw. ULONG_MAX (`max`) and the environment variable of the
-- port (`env`) are arguments of its `main`. std::string is a list of bytes, std::map a list of pairs,
-- std::strtoul is written out.
--
-- Files:
--   Base: shared names, tests, lists.
--   Prog, Prog/Hoare: calls and runs; monitors of a run and the rules to prove what they say.
--   Pkcs11/Cryptoki: the calls and replies, and pkcs11_example/demo_common.h (print_hex, CK_CHECK as
--     ck_check, DESTROY as destroy).
--   Pkcs11/Protocol: the rules of PKCS#11 for a caller, and the documented behaviour of a library.
--     Protocol/Rules: a rule of proof for each call; Protocol/Failed: runs after a failure;
--     Protocol/Resources: what the library holds by its replies, refused releases included.
--   Pkcs11/ModuleInfo, RandomGen, Digest, SymKeyGen, ImportObject, Ecc, Rsa, EcdhDerive, Hmac,
--     EncryptDecrypt: the function run_xxx of pkcs11_example/demo_xxx.c, with its tables and
--     templates. The child Protocol of each is its proof under the rules, the child Verdict (Ledger
--     for EncryptDecrypt) that of its return code; Ecc/Rounds is about the curves
--     that are tried.
--   Pkcs11/Suite: main of pkcs11_example/pkcs11_demo.c.
--   Pkcs11/Verdict: which failing calls are errors. Pkcs11/Clean: the safety theorems on runs.
--   Pkcs11/Token, Examples: a software token, and the theorems at runs against it.
--   App/Sss: the calls and replies of the application, and the constants of app/demo_se051.h.
--   App/Rng, Keys, SignVerify, Ecdh, EncDec, Csr: the functions of app/demo_rng.c, demo_ec.c and
--     demo_rsa.c, by what they do; where the EC and the RSA function have the same shape they share a
--     definition. App/Entry: ex_sss_entry of app/demo_se051.c.
--   App/Watching: the monitor of what is initialised, and (Rules) the rules for it. App/Closing: the
--     functions under the monitor. App/Runs: the theorems on runs. App/Examples: a library and the
--     theorems at runs against it.
--   App/Der: the certification request as it is meant, over the bytes of each writer of mbedTLS.
--     Der/Rules: rules for what is drafted; Der/Requests: app/demo_ec.c and app/demo_rsa.c draft it.
--   Cpp/Calls: the calls, exceptions, check of cpp_app/se05x_crypto.cpp and the shape of its functions.
--   Cpp/Args: parseArgs, parseId, parseCurve and parseBits of cpp_app/main.cpp. Args/RoundTrip: what
--     parseArgs makes of a command line; Args/Numbers: what parseId makes of a number.
--   Cpp/Session, EcKey, RsaKey: the other functions of cpp_app/se05x_crypto.cpp, by class. Cpp/Csr:
--     cpp_app/csr.cpp. Cpp/Commands (Ecc, Rsa): doRng, doEcc and doRsa of cpp_app/main.cpp, a
--     definition for each command. Cpp/Entry: its main.
--   Cpp/Watching: the monitor of the session, of what is initialised, and of the output, with its
--     rules. Cpp/Closing: the functions under the monitor. Cpp/Runs: the theorems on runs of main.
--   Cpp/Tracing: the monitor of what main opens, reads, hashes, signs, verifies and puts out.
--     Tracing/Steps, Commands: the functions, and the commands sign and verify, under it.
--   Cpp/Makes: the rules of proof that Cpp/Tracing and Cpp/Der share.
--   Cpp/Der: rules for what the C++ application drafts; Der/Writing and Der/Requests: it is App/Der.
--   Cpp/Examples, Der/Examples: libraries, and the theorems at runs against them.
--
-- What is documented of the PKCS#11 library is a hypothesis on the replies of a run (`is_honest`):
-- handles are written exactly on success and are valid, a reported length is that of what was written and
-- fits the room, and CKR_BUFFER_TOO_SMALL is not reported where the room is enough for the mechanism.
--
-- What is documented of the writers of mbedTLS, and of the lengths that SSS reports, is a hypothesis of
-- the theorems on certification requests and on the results of main (`keeps_word`); the other theorems on
-- app/ and cpp_app/ hold of every reply.
--
-- Not modelled: the text of the lines that only inform (headers, handles, fields of structures, the
-- lines on stderr); the contents of buffers beyond what a callee wrote; exhausted memory, which in the
-- C++ application throws, but for the vector of getRandom, whose size the user gives (`allocate`); what
-- the library releases by itself when a session closes; the build files.
pub mod App
pub mod Base
pub mod Cpp
pub mod Pkcs11
pub mod Prog
