-- ===== src/Lib.antt =====
-- A model of the frontend of Volum (a file manager served from a home server), the TypeScript
-- under frontend/src, with the properties that make its parts correct.
--
-- The React hooks keep their state in `useState` and `useRef`; here each hook's state is a record
-- and each handler is a function from the state to the new state. What a handler sends to the
-- server, and what the server answers, are values: answers arrive as later steps, in any order,
-- where the code awaits nothing. What the last rendering captured in a callback is a value of its
-- own where it can differ from the state. JavaScript strings are lists of code units (`Text`),
-- numbers that count are natural numbers, coordinates are integers, `null` and `undefined` are
-- `none`.
--
-- Files, with the code that they model:
--
-- - Base and the files below it: shared names, the array and string methods of JavaScript that the
--   code calls, integers with `Math.round`, decimal text.
-- - Entries: the data that the server sends, frontend/src/api/client-files.ts.
-- - Upload: frontend/src/utils/upload.ts, with the two requests of client-files.ts that it makes.
--   The network is a parameter. The `while` loop takes fuel; one more than the number of bytes that
--   are left is enough against a server that keeps what it is sent.
-- - Browser: the file requests of frontend/src/hooks/useFileBrowser.ts, as the steps of a session.
-- - Search: the global search of useFileBrowser.ts.
-- - Derived: the values that useFileBrowser.ts and frontend/src/utils/roots.ts compute from the state.
-- - Window: the geometry of frontend/src/utils/window.ts.
-- - Manager: frontend/src/contexts/WindowManagerProvider.tsx. It calls Window.
-- - Paths: frontend/src/utils/path.ts.
-- - Archive: frontend/src/utils/archive.ts.
-- - Selection: frontend/src/hooks/useSelection.ts.
-- - Jobs: frontend/src/utils/jobs.ts and the event handlers and commands of
--   frontend/src/hooks/useJobs.ts.
-- - Transfer: frontend/src/hooks/useTransferCommands.ts. It calls Paths.
-- - Visible: frontend/src/hooks/useIncrementalEntries.ts.
-- - Preferences: frontend/src/hooks/useViewPreferences.ts.
-- - Navigation: frontend/src/hooks/useNavStack.ts and useNavigation.ts. It calls Preferences.
-- - Toasts, Favorites, Escape: frontend/src/hooks/useToasts.ts, useFavorites.ts and
--   useEscapeStack.ts.
-- - Services: frontend/src/hooks/useServiceShortcuts.ts.
-- - Analyzer: frontend/src/pages/StorageAnalyzerView.tsx, the scan of a folder, the search for
--   duplicates with their selection and trashing, and which analysis is opened.
--   The loops over pages and the tree take fuel; the results say how much is enough.
-- - Trash: frontend/src/pages/TrashView.tsx.
-- - Desktop: frontend/src/hooks/useDesktopIcons.tsx, the icons and their order.
-- - Commands: frontend/src/hooks/useFileCommands.ts, useArchiveCommands.ts, useTrashCommands.ts and
--   useUploadCommands.ts. It calls Transfer, Archive and Paths.
-- - Dragging, RubberBand: frontend/src/hooks/useDragDrop.ts and useRubberBand.ts.
-- - Renaming: frontend/src/components/overlay/BatchRenameModal.tsx.
-- - Pager: frontend/src/pages/JobsPage.tsx, the pages of the list of jobs and its actions.
-- - Openers: frontend/src/hooks/useWorkspaceOpeners.ts. It calls Manager.
-- - Desk: frontend/src/hooks/useDesktopActions.ts.
-- - Calendar: frontend/src/components/overlay/Calendar.tsx.
-- - Frame: frontend/src/components/window/WindowFrame.tsx. It calls Manager and Window.
-- - SearchView: frontend/src/pages/SearchResultsView.tsx. It calls Preview and Transfer.
-- - Preview: frontend/src/utils/preview.ts, fileTypes.ts and hooks/usePreviewNavigation.ts.
-- - Icons: frontend/src/api/icons.ts; its tables are in Icons/Tables.
-- - Picker: frontend/src/components/input/FolderPicker.tsx.
-- - Conflicts: frontend/src/components/overlay/ConflictDialog.tsx.
-- - Destination: frontend/src/components/overlay/TransferDialog.tsx. Transfer takes what it submits.
-- - Toolbar: frontend/src/components/layout/BreadcrumbBar.tsx and TopBar.tsx, the bars' overflow.
--
-- How they interact: the browser's list feeds the selection; the selection's entries go into the
-- transfer commands, which make job requests; finished jobs refresh the browser.
--
-- Not modelled: the React components, pages and hooks that no file above names, styles, the Go
-- backend (its answers are parameters), formatting of dates, sizes and durations, image loading and
-- the browser's DOM measurements.
pub mod Analyzer
pub mod Archive
pub mod Base
pub mod Browser
pub mod Calendar
pub mod Commands
pub mod Conflicts
pub mod Derived
pub mod Desk
pub mod Desktop
pub mod Destination
pub mod Dragging
pub mod Entries
pub mod Escape
pub mod Favorites
pub mod Frame
pub mod Icons
pub mod Jobs
pub mod Manager
pub mod Navigation
pub mod Openers
pub mod Pager
pub mod Paths
pub mod Picker
pub mod Preferences
pub mod Preview
pub mod Renaming
pub mod RubberBand
pub mod Search
pub mod SearchView
pub mod Selection
pub mod Services
pub mod Toasts
pub mod Toolbar
pub mod Transfer
pub mod Trash
pub mod Upload
pub mod Visible
pub mod Window
