-- ===== src/Lib.antt =====
-- web-ssh-tool: the browser client of a web terminal and file manager (web/src).
--
-- The client signs in over one WebSocket, and every request and event of the server goes over it:
-- the socket is kept by App.tsx, its frames are encoded by workers/Compress.ts, and the class `Auth`
-- of pages/SignInPage.tsx gives each response to the request that it answers and each event to its
-- listeners. The file explorer watches one place of the server through a controller, shows what
-- the controller has, sorts it, and changes it by requests.
--
-- Which file models which part:
--   Compress      web/src/workers/Compress.ts: `tag`, `suspend` and `closed` are the record Pool,
--                 onMessage, onClose and request are on_message, on_close and request
--     Codec       web/src/workers/CompressCommon.ts and the handler of Compress.worker.ts
--     Offload     compress, decompress, stringifyAndCompress, decompressAndJson, decodeMessage and
--                 encodeMessage of Compress.ts, by the way that a request goes
--   Auth          the class Auth of web/src/pages/SignInPage.tsx: rest in three steps (rest_start,
--                 rest_send, rest_fail) since it waits for the encoding, and on_message
--     Wire        rest and the listener with the frames of workers/Compress.ts
--     Transfer    upload, download and previewUrl from the answer to their token on
--     Uri, Urls   encodeURIComponent and the URLs of upload, download and previewUrl
--   Connection    the class Service of web/src/App.tsx and wsSafeClose of common/DomTools.ts
--   Snackbar      the class AsyncSequence of web/src/components/Scaffold.tsx
--     Scaffold    the component Scaffold of the same file, whose times are events
--   Explorer      web/src/pages/home-page/file-explorer
--     Types       Lstat and FileType of web/src/common/Type.ts
--     Order       sortArray, compare and stringReserveCompare of file-explorer/Common.tsx
--     Controller  FileExplorer.Controller of file-explorer/Common.tsx
--     View        the component FileExplorer and Content of the same file, and _reconnect of
--                 pages/home-page/MultiFileExplorer.tsx
--     Upload      FileExplorer.UploadController and _upload of MultiFileExplorer.tsx
--     DropZone    uploadItem of directory-preview/DropZone.tsx, and the component in its child Zone
--     Actions     deleting, trashing, copying and moving of directory-preview/DeleteDialog.tsx and
--                 CopyToDialog.tsx
--     Dialogs     the forms of InformationDialog.tsx (renaming), NewDialog.tsx, CopyToDialog.tsx (new
--                 directory) and FileMoveDialog.tsx
--     Listing     the states and effects of DirectoryPreview.tsx and the selecting bar of ToolsBar.tsx
--     Files       directory-preview/FileListTile.tsx and common/FileIcon.ts
--     Targets     the list of targets of directory-preview/CopyToDialog.tsx
--     CopyDialog  the states, the controller and the handlers of CopyToDialog.tsx
--     Toolbar     directory-preview/ToolsBar.tsx: the menu, the drops and the buttons on a selection
--     Preview     PreviewWindow of directory-preview/RequestPreviewDialog.tsx
--     Frame       directory-preview/PreviewDialog.tsx
--     Information what directory-preview/InformationDialog.tsx shows
--     Navigation  common/GoToDialog.tsx, common/NavigatorBar.tsx and FilePreview.tsx
--     Rows        the class List of DirectoryPreview.tsx
--     Uploads     the list of jobs of pages/home-page/MultiFileExplorer.tsx
--   Terminal      MultiTerminalView.Controller of web/src/pages/home-page/MultiTerminalView.tsx
--     Tabs        the class MultiTerminalView: its tabs
--     Commands    CommandButton: the quick commands
--     Menu        MoreButton: the theme, the layout, the encoding and the end of the session
--     Panel       XTerminalView and SizeHint: what is shown of a shell
--     Screen      web/src/components/XTerminal.tsx: the size of the terminal
--   Components    web/src/components
--     Animated    AnimatedList.tsx: `_children` with the Wrap of each child, by its key
--     LongPress   LongPressButton.tsx
--     Layout      LayoutBuilder.tsx
--   SignIn        the form Content of web/src/pages/SignInPage.tsx
--     Visibility  its button that shows the password
--     Server      AppServer.signIn of web/src/App.tsx
--   Tools         fileSize, sliceOutput and makeId of web/src/common/Tools.ts
--   Settings      Settings.Service of web/src/common/providers/SettingsContent.tsx
--   Appearance    ThemeContext.tsx and LocaleContext.tsx of web/src/common/providers
--   Home          web/src/pages/HomePage.tsx: layout, resizing and encoding
--   Build         buildAssetsMap of build-rust-assets.ts
--   Common        the libraries' names, Boolean tests, list lemmas, JavaScript's Map (Keyed) and
--                 strings (Text)
-- The children of a part hold its proofs, and its Tests the runs on concrete inputs.
--
-- Asynchronous code is a state with one function per step between two awaits, and runs are lists of
-- such steps, in any order that can come. Strings that the code walks are lists of code units;
-- those that it only hands on are of any type. What pako, iconv-lite, JSON, TextEncoder and the
-- server do is a parameter or an input. JavaScript's numbers are used here for tags, lengths and code units, far
-- below 2^53, so they are natural numbers. The loop of stringReserveCompare is bounded by the
-- length of its first string, beyond which it does not go, and the walk of a dropped folder by the
-- number that one reading gives. makeUniqueId tries five ids, as the source does.
--
-- Not modelled: the server (rust/), the markup and styles of the components, and the third-party
-- components and transitions; and of the build scripts the copying of files and the licenses.
pub mod Common
pub mod Appearance
pub mod Auth
pub mod Build
pub mod Components
pub mod Compress
pub mod Connection
pub mod Explorer
pub mod Home
pub mod Settings
pub mod SignIn
pub mod Snackbar
pub mod Terminal
pub mod Tools
